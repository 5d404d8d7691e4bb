-- ===== src/Fleet/Order/Handover.antt =====
-- How locator hands the requests for one terminal on.
use mathlib.Core.List.{filter-append, tail-sublist}
use mathlib.Core.List.Sublist
use mathlib.Core.List.{Sublist}
use fleetcore.Prelude.{
  ℕ, ◌≤◌, ◌<◌, ◌^◌, ◌≡◌, ◌≢◌, ◌⊎◌, inl, inr, refl, sym, ap, ◌∙◌, subst, List, [], ◌∷◌, ◌++◌,
  append-nil, append_assoc, arith, length, ◌==◌, ==_iff, Bool-cases,
}
use fleetcore.Bytes.{Bytes, Endian}
use fleetcore.Fleet.{Fifo, key}
use fleetcore.Fleet.Order.Turns.{Names, names_terminal, for_slot, for_slot-cons, for_slot-other}
use fleetcore.Fleet.Order.Way.{Carries, Carries-snoc, Line, Line-kept}
use fleetcore.Fleet.Origin.Queues.{from_gateway}
use fleetcore.Fleet.Routed.{slot_of-index, termd_index-fits}
use fleetcore.Fleet.Waits.{keys_differ, sent_waits, sent_other}
use fleetcore.IpcMessage.{ipc_lock_request_object, ipc_lock_request_of-object, idx_locator}
use fleetcore.Locator.{termd_index}
use fleetcore.Locator.Resolve.{IsDigits, number, number-lt}
use fleetcore.Process.{send_to}
use fleetcore.Proto.{LockRequest}
use fleetcore.Termd.{index, term_no}
use fleetcore.StreamBuffer.Serve.{All-snoc}
use fleetcore.Wire.RoundTrip.{IsLockRequest}

-- locator sends a request to itself for the number 0 alone, which no terminal has.
not_for_slot :
    (n slot : ℕ)
    → n < 10000
    → slot < 2 ^ 31
    → key idx_locator ≡ key (termd_index n)
    → n ≢ term_no slot
unfolding termd_index term_no
not_for_slot n slot small fits same is = omega (arith, same, is)

module _ (e : Endian) {K : Type 0} (fifo : Fifo K) (slot : ℕ) where
  module _ (heard buf sent : Bytes) (k : K) (v : Line e fifo slot heard buf k sent) where
    module _ (m : LockRequest) (ls : List LockRequest) (msg : Bytes) (rest : List Bytes) where
      order_at_locator :
          v.routing ≡ m ∷ ls → Sublist (v.done ++ (v.routed ++ for_slot slot (m ∷ ls))) v.asked
      order_at_locator is =
          subst
            (λ (r : List LockRequest). Sublist (v.done ++ (v.routed ++ for_slot slot r)) v.asked) is
            v.order

      -- locator takes a request and sends it nowhere.
      line_dropped :
          slot < 2 ^ 31
          → fifo.waits (key idx_locator) k ≡ msg ∷ rest
          → v.routing ≡ m ∷ ls
          → Carries e rest ls
          → Line e fifo slot heard buf (fifo.taken (key idx_locator) k) sent
      line_dropped small front is carries =
          let (gl, gs, lg, lt, sg, sl) = keys_differ slot small in
          record {
            asked = v.asked;
            routing = ls;
            routed = v.routed;
            done = v.done;
            before = v.before;
            split = v.split;
            turn = v.turn;
            at_locator =
                subst (λ (w : List Bytes). Carries e w ls)
                  (sym (fifo.taken_waits (key idx_locator) msg rest k front)) carries;
            at_termd =
                subst (λ (w : List Bytes). Carries e w v.routed)
                  (sym (fifo.taken_other (key idx_locator) (key (index slot)) k sl)) v.at_termd;
            routed_names = v.routed_names;
            done_names = v.done_names;
            made = v.made;
            order =
                Sublist.trans
                  (Sublist.append (Sublist.refl v.done) (
                    Sublist.append (Sublist.refl v.routed)
                      (Sublist.filter (names_terminal slot) (tail-sublist (m ∷ ls)))))
                  (order_at_locator is);
          }

      -- locator takes a request and sends it to this termd.
      line_to_termd :
          (i : ℕ)
          → slot < 2 ^ 31
          → fifo.waits (key idx_locator) k ≡ msg ∷ rest
          → v.routing ≡ m ∷ ls
          → Carries e rest ls
          → IsLockRequest m
          → Names slot m
          → i < 2 ^ 32
          → key (index slot) ≡ key i
          → Line e fifo slot heard buf
              (send_to
                (fifo.ipc)
                i
                (ipc_lock_request_object e (from_gateway m i))
                (fifo.taken (key idx_locator) k)).1
              sent
      line_to_termd i small front is carries contract names fits same =
          let (gl, gs, lg, lt, sg, sl) = keys_differ slot small in
          let o = ipc_lock_request_object e (from_gateway m i) in
          let k0 = fifo.taken (key idx_locator) k in
          let long = (ipc_lock_request_of-object e (from_gateway m i) contract.fields fits).1 in
          let after =
            ap (λ (q : ℕ). fifo.waits q (send_to (fifo.ipc) i o k0).1) same
            ∙ sent_waits fifo i o k0 (omega (arith, long))
            ∙ ap (λ (q : ℕ). fifo.waits q k0 ++ (o ∷ [])) (sym same)
            ∙ ap (λ (w : List Bytes). w ++ (o ∷ []))
                (fifo.taken_other (key idx_locator) (key (index slot)) k sl) in
          record {
            asked = v.asked;
            routing = ls;
            routed = v.routed ++ (m ∷ []);
            done = v.done;
            before = v.before;
            split = v.split;
            turn = v.turn;
            at_locator =
                subst (λ (w : List Bytes). Carries e w ls)
                  (sym (
                    sent_other fifo i _ o k0 (omega (arith, long)) (λ eq. lt (eq ∙ sym same))
                    ∙ fifo.taken_waits (key idx_locator) msg rest k front))
                  carries;
            at_termd =
                subst (λ (w : List Bytes). Carries e w (v.routed ++ (m ∷ []))) (sym after)
                  (Carries-snoc e _ v.routed o m v.at_termd (i, fits, contract, refl));
            routed_names = All-snoc (Names slot) v.routed m v.routed_names names;
            done_names = v.done_names;
            made = v.made;
            order =
                subst (λ (l : List LockRequest). Sublist (v.done ++ l) v.asked)
                  (ap (◌++◌ v.routed) (for_slot-cons slot m ls names.names)
                    ∙ sym (append_assoc v.routed (m ∷ []) (for_slot slot ls)))
                  (order_at_locator is);
          }

    -- A request that is not for this terminal comes to locator.
    line_to_locator :
        (m : LockRequest) (i : ℕ)
        → slot < 2 ^ 31
        → IsLockRequest m
        → number m.term_no ≢ term_no slot
        → i < 2 ^ 32
        → key idx_locator ≡ key i
        → Line e fifo slot heard buf
            (send_to (fifo.ipc) i (ipc_lock_request_object e (from_gateway m i)) k).1
            sent
    line_to_locator m i small contract differ fits same =
        let (gl, gs, lg, lt, sg, sl) = keys_differ slot small in
        let o = ipc_lock_request_object e (from_gateway m i) in
        let long = (ipc_lock_request_of-object e (from_gateway m i) contract.fields fits).1 in
        let after =
          ap (λ (q : ℕ). fifo.waits q (send_to (fifo.ipc) i o k).1) same
          ∙ sent_waits fifo i o k (omega (arith, long))
          ∙ ap (λ (q : ℕ). fifo.waits q k ++ (o ∷ [])) (sym same) in
        record {
          asked = v.asked;
          routing = v.routing ++ (m ∷ []);
          routed = v.routed;
          done = v.done;
          before = v.before;
          split = v.split;
          turn = v.turn;
          at_locator =
              subst (λ (w : List Bytes). Carries e w (v.routing ++ (m ∷ []))) (sym after)
                (Carries-snoc e _ v.routing o m v.at_locator (i, fits, contract, refl));
          at_termd =
              subst (λ (w : List Bytes). Carries e w v.routed)
                (sym (sent_other fifo i _ o k (omega (arith, long)) (λ eq. sl (eq ∙ sym same))))
                v.at_termd;
          routed_names = v.routed_names;
          done_names = v.done_names;
          made = v.made;
          order =
              subst (λ (l : List LockRequest). Sublist (v.done ++ (v.routed ++ l)) v.asked)
                (sym (
                  filter-append (names_terminal slot) v.routing (m ∷ [])
                  ∙ ap (◌++◌ (for_slot slot v.routing)) (for_slot-other slot m differ)
                  ∙ append-nil (for_slot slot v.routing)))
                v.order;
        }

  -- Whatever locator does with the request that it takes, the requests for this terminal keep their
  -- way.
  pub line_routed :
      (heard buf sent : Bytes) (k k' : K) (m : LockRequest) (ls : List LockRequest) (msg : Bytes)
      (rest : List Bytes) (v : Line e fifo slot heard buf k sent)
      → slot < 2 ^ 31
      → fifo.waits (key idx_locator) k ≡ msg ∷ rest
      → v.routing ≡ m ∷ ls
      → Carries e rest ls
      → IsLockRequest m
      → (k' ≡ fifo.taken (key idx_locator) k)
        ⊎ (IsDigits m.term_no
            × (k'
                ≡ (send_to
                    (fifo.ipc)
                    (termd_index (number m.term_no))
                    (ipc_lock_request_object e (from_gateway m (termd_index (number m.term_no))))
                    (fifo.taken (key idx_locator) k)).1))
      → Line e fifo slot heard buf k' sent
  line_routed heard buf sent k k' m ls msg rest v small front is carries contract (inl same) =
      subst (λ (q : K). Line e fifo slot heard buf q sent) (sym same)
        (line_dropped heard buf sent k v m ls msg rest small front is carries)
  line_routed heard buf sent k k' m ls msg rest v small front is carries contract (inr (d, same)) =
      let n = number m.term_no in
      let i = termd_index n in
      let less = number-lt m.term_no d in
      let fits = termd_index-fits n in
      let k0 = fifo.taken (key idx_locator) k in
      let o = ipc_lock_request_object e (from_gateway m i) in
      let short : length o ≤ 1024 =
        omega (arith, (ipc_lock_request_of-object e (from_gateway m i) contract.fields fits).1) in
      let dropped = line_dropped heard buf sent k v m ls msg rest small front is carries in
      subst (λ (q : K). Line e fifo slot heard buf q sent) (sym same)
        (elim (Bool-cases (key (index slot) == key i)) [
          | inl ours ↦
              let at = (==_iff (key (index slot)) (key i)).0 ours in
              line_to_termd heard buf sent k v m ls msg rest i small front is carries contract
                (record { digits = d; names = slot_of-index n slot less small at }) fits at
          | inr not_ours ↦ elim (Bool-cases (key idx_locator == key i)) [
            | inl back ↦
                let at = (==_iff (key idx_locator) (key i)).0 back in
                line_to_locator heard buf sent k0 dropped m i small contract
                  (not_for_slot n slot less small at) fits at
            | inr elsewhere ↦
                Line-kept e fifo slot heard buf k0 (send_to (fifo.ipc) i o k0).1 sent
                  (sent_other fifo i _ o k0 short (λ at. ground (arith, elsewhere, at)))
                  (sent_other fifo i _ o k0 short (λ at. ground (arith, not_ours, at))) dropped
          ]
        ])
