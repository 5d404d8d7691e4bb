-- ===== src/Fleet/Order/Delivered.antt =====
-- How a termd hands the requests for its terminal on.
use mathlib.Core.List.{Sublist}
use fleetcore.Prelude.{ℕ, ◌≡◌, refl, sym, ap, ◌∙◌, subst, List, [], ◌∷◌, ◌++◌, append_assoc}
use fleetcore.Bytes.{Bytes, Endian}
use fleetcore.Fleet.{Fifo, key}
use fleetcore.Fleet.Order.Turns.{then_sent, Names, for_slot}
use fleetcore.Fleet.Order.Way.{Carries, Line}
use fleetcore.Fleet.Sent.{Extends}
use fleetcore.IpcMessage.{idx_locator}
use fleetcore.Proto.{LockRequest}
use fleetcore.StreamBuffer.Serve.{All-snoc, All}
use fleetcore.Termd.{index}
use fleetcore.Wire.Layout.{lock_request_wire}

module _ (e : Endian) {K : Type 0} (fifo : Fifo K) (slot : ℕ) where
  module _ (heard buf sent : Bytes) (k : K) (v : Line e fifo slot heard buf k sent) where
    -- This termd takes a request, and a beginning of it is sent.
    pub line_delivered :
        (m : LockRequest) (rs : List LockRequest) (rest : List Bytes) (k' : K) (sent' : Bytes)
        → fifo.waits (key idx_locator) k' ≡ fifo.waits (key idx_locator) k
        → fifo.waits (key (index slot)) k' ≡ rest
        → v.routed ≡ m ∷ rs
        → Carries e rest rs
        → Extends (lock_request_wire m) sent sent'
        → Line e fifo slot heard buf k' sent'
    line_delivered m rs rest k' sent' l t is carries grown =
        let (names, left) = subst (All (Names slot)) is v.routed_names in
        record {
          asked = v.asked;
          routing = v.routing;
          routed = rs;
          done = v.done ++ (m ∷ []);
          before = v.before;
          split = v.split;
          turn = v.turn;
          at_locator = subst (λ (w : List Bytes). Carries e w v.routing) (sym l) v.at_locator;
          at_termd = subst (λ (w : List Bytes). Carries e w rs) (sym t) carries;
          routed_names = left;
          done_names = All-snoc (Names slot) v.done m v.done_names names;
          made = then_sent m v.made refl grown;
          order =
              subst (λ (l : List LockRequest). Sublist l v.asked)
                (ap (λ (r : List LockRequest). v.done ++ (r ++ for_slot slot v.routing)) is
                  ∙ sym (append_assoc v.done (m ∷ []) (rs ++ for_slot slot v.routing)))
                v.order;
        }
