-- ===== src/Fleet/Order/Way.antt =====
-- The way of the requests for one terminal: read by gateway, waiting for locator, waiting for its
-- termd, handed on to it.
use mathlib.Core.List.{filter-append, filter-sublist}
use mathlib.Core.List.Sublist
use mathlib.Core.List.{Sublist}
use fleetcore.Prelude.{
  ℕ, ◌-◌, ◌≤◌, ◌<◌, ◌^◌, ◌≡◌, refl, sym, ap, ◌∙◌, subst, List, [], ◌∷◌, ◌++◌, append-nil,
  append_assoc, arith, take, drop,
}
use fleetcore.Bytes.{Bytes, Endian}
use fleetcore.Fleet.{Fifo, key}
use fleetcore.Fleet.Order.Turns.{
  InTurn, one_more, InTurn-append, MadeOf, Names, names_terminal, for_slot, take-append_front,
}
use fleetcore.Fleet.Origin.Queues.{from_gateway}
use fleetcore.Fleet.Reads.{Reading}
use fleetcore.Fleet.Waits.{keys_differ, sent_waits, sent_other}
use fleetcore.Gateway.Handling.{forwarded}
use fleetcore.IpcMessage.{ipc_lock_request_object, ipc_lock_request_of-object, idx_locator}
use fleetcore.Proto.{LockRequest}
use fleetcore.StreamBuffer.Serve.{All}
use fleetcore.TcpServer.Send.{take-drop}
use fleetcore.Termd.{index}
use fleetcore.Wire.Layout.{lock_request_wire}
use fleetcore.Wire.RoundTrip.{IsLockRequest}

module _ (e : Endian) where
  abbrev pub Carried : Bytes → LockRequest → Type 0
  Carried msg m =
      (idx : ℕ) × (idx < 2 ^ 32)
      × IsLockRequest m
      × (msg ≡ ipc_lock_request_object e (from_gateway m idx))

  -- The messages carry these requests, in order.
  abbrev pub Carries : List Bytes → List LockRequest → Type 0
  Carries [] [] = Unit {0}
  Carries [] (m ∷ ms) = ⊥
  Carries (msg ∷ msgs) [] = ⊥
  Carries (msg ∷ msgs) (m ∷ ms) = Carried msg m × Carries msgs ms

  pub Carries-snoc :
      (msgs : List Bytes) (ms : List LockRequest) (msg : Bytes) (m : LockRequest)
      → Carries msgs ms
      → Carried msg m
      → Carries (msgs ++ (msg ∷ [])) (ms ++ (m ∷ []))
  Carries-snoc [] [] msg m h c = (c, tt)
  Carries-snoc [] (x ∷ ms) msg m h c = absurd h
  Carries-snoc (y ∷ msgs) [] msg m h c = absurd h
  Carries-snoc (y ∷ msgs) (x ∷ ms) msg m (d, h) c = (d, Carries-snoc msgs ms msg m h c)

  pub Carries-front :
      (msg : Bytes) (msgs : List Bytes) (ms : List LockRequest)
      → Carries (msg ∷ msgs) ms
      → (m : LockRequest) × (rest : List LockRequest) × (ms ≡ m ∷ rest)
        × Carried msg m
        × Carries msgs rest
  Carries-front msg msgs [] h = absurd h
  Carries-front msg msgs (m ∷ rest) (c, h) = (m, rest, refl, c, h)

  module _ {K : Type 0} (fifo : Fifo K) (slot : ℕ) where
    pub record Line (heard buf : Bytes) (k : K) (sent : Bytes) : Type 0 where
      pub asked : List LockRequest
      pub routing : List LockRequest
      pub routed : List LockRequest
      pub done : List LockRequest
      pub before : Bytes
      pub split : heard ≡ before ++ buf
      pub turn : InTurn asked before
      pub at_locator : Carries (fifo.waits (key idx_locator) k) routing
      pub at_termd : Carries (fifo.waits (key (index slot)) k) routed
      pub routed_names : All (Names slot) routed
      pub done_names : All (Names slot) done
      pub made : MadeOf done sent
      pub order : Sublist (done ++ (routed ++ for_slot slot routing)) asked

    -- Another state of the kernel in which the same waits for locator and this termd.
    pub Line-kept :
        (heard buf : Bytes) (k k' : K) (sent : Bytes)
        → fifo.waits (key idx_locator) k' ≡ fifo.waits (key idx_locator) k
        → fifo.waits (key (index slot)) k' ≡ fifo.waits (key (index slot)) k
        → Line heard buf k sent
        → Line heard buf k' sent
    Line-kept heard buf k k' sent l t v = record {
      asked = v.asked;
      routing = v.routing;
      routed = v.routed;
      done = v.done;
      before = v.before;
      split = v.split;
      turn = v.turn;
      at_locator = subst (λ (w : List Bytes). Carries w v.routing) (sym l) v.at_locator;
      at_termd = subst (λ (w : List Bytes). Carries w v.routed) (sym t) v.at_termd;
      routed_names = v.routed_names;
      done_names = v.done_names;
      made = v.made;
      order = v.order;
    }

    -- The buffer loses some of its front, whatever it is, and more is heard.
    line_moves :
        (heard buf heard' buf' : Bytes) (k : K) (sent : Bytes)
        → ((before : Bytes)
            → heard ≡ before ++ buf
            → (gap : Bytes) × (heard' ≡ (before ++ gap) ++ buf'))
        → Line heard buf k sent
        → Line heard' buf' k sent
    line_moves heard buf heard' buf' k sent moves v =
        let (gap, is) = moves v.before v.split in
        record {
          asked = v.asked;
          routing = v.routing;
          routed = v.routed;
          done = v.done;
          before = v.before ++ gap;
          split = is;
          turn = InTurn-append gap v.turn;
          at_locator = v.at_locator;
          at_termd = v.at_termd;
          routed_names = v.routed_names;
          done_names = v.done_names;
          made = v.made;
          order = v.order;
        }

    -- The order when gateway has forwarded one request more.
    order_forwards :
        (done routed routing asked : List LockRequest) (m : LockRequest)
        → Sublist (done ++ (routed ++ for_slot slot routing)) asked
        → Sublist (done ++ (routed ++ for_slot slot (routing ++ (m ∷ [])))) (asked ++ (m ∷ []))
    order_forwards done routed routing asked m h =
        subst (λ (l : List LockRequest). Sublist l (asked ++ (m ∷ [])))
          (append_assoc done (routed ++ for_slot slot routing) (for_slot slot (m ∷ []))
            ∙ ap (◌++◌ done) (
                append_assoc routed (for_slot slot routing) (for_slot slot (m ∷ []))
                ∙ ap (◌++◌ routed) (sym (filter-append (names_terminal slot) routing (m ∷ [])))))
          (Sublist.append h (filter-sublist (names_terminal slot)))

    line_forwards :
        (heard buf sent : Bytes) (len : ℕ) (m : LockRequest) (k : K)
        → slot < 2 ^ 31
        → IsLockRequest m
        → 24 ≤ len
        → buf ≡ lock_request_wire m ++ drop 24 buf
        → Line heard buf k sent
        → Line heard (drop len buf) (forwarded e fifo.ipc m k) sent
    line_forwards heard buf sent len m k small contract room front v =
        let o = ipc_lock_request_object e (from_gateway m 0) in
        let long =
          (ipc_lock_request_of-object e (from_gateway m 0) contract.fields (omega arith)).1 in
        let (gl, gs, lg, ls, sg, sl) = keys_differ slot small in
        let read : take len buf ≡ lock_request_wire m ++ take (len - 24) (drop 24 buf) =
          ap (take len) front ∙ take-append_front (lock_request_wire m) (drop 24 buf) len room in
        record {
          asked = v.asked ++ (m ∷ []);
          routing = v.routing ++ (m ∷ []);
          routed = v.routed;
          done = v.done;
          before = v.before ++ take len buf;
          split =
              v.split
              ∙ ap (◌++◌ v.before) (sym (take-drop len buf))
              ∙ sym (append_assoc v.before (take len buf) (drop len buf));
          turn =
              one_more m (take (len - 24) (drop 24 buf)) v.turn contract refl
                (ap (◌++◌ v.before) read);
          at_locator =
              subst (λ (w : List Bytes). Carries w (v.routing ++ (m ∷ [])))
                (sym (sent_waits fifo idx_locator o k (omega (arith, long))))
                (Carries-snoc _ v.routing o m v.at_locator (0, omega arith, contract, refl));
          at_termd =
              subst (λ (w : List Bytes). Carries w v.routed)
                (sym (sent_other fifo idx_locator _ o k (omega (arith, long)) sl)) v.at_termd;
          routed_names = v.routed_names;
          done_names = v.done_names;
          made = v.made;
          order = order_forwards v.done v.routed v.routing v.asked m v.order;
        }

    pub Line-Reading :
        (sent : Bytes) → slot < 2 ^ 31 → Reading e fifo.ipc (λ heard buf k. Line heard buf k sent)
    Line-Reading sent small = record {
      forwards = λ heard buf len m k contract room front v.
          line_forwards heard buf sent len m k small contract room front v;
      skips = λ heard buf len k v.
          line_moves heard buf heard (drop len buf) k sent
            (λ before is. (
              take len buf,
              is
                  ∙ ap (◌++◌ before) (sym (take-drop len buf))
                  ∙ sym (append_assoc before (take len buf) (drop len buf)),
            ))
            v;
      resets = λ heard buf k v.
          line_moves heard buf heard [] k sent
            (λ before is. (buf, is ∙ sym (append-nil (before ++ buf)))) v;
      hears = λ heard buf chunk k v.
          line_moves heard buf (heard ++ chunk) (buf ++ chunk) k sent
            (λ before is. (
              [],
              ap (λ (b : Bytes). b ++ chunk) is
                  ∙ append_assoc before buf chunk
                  ∙ ap (λ (b : Bytes). b ++ (buf ++ chunk)) (sym (append-nil before)),
            ))
            v;
    }
