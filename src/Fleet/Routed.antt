-- ===== src/Fleet/Routed.antt =====
-- What locator and termd put into the queues of one host.
use fleetcore.Prelude.{
  ◌⊎◌, ℕ, ◌<◌, ◌^◌, ◌≡◌, ◌≢◌, refl, sym, ap, ◌∙◌, subst, inl, inr, none, some, arith, length, ◌==◌,
  ==_iff, Bool-cases, Option-cases,
}
use fleetcore.Bytes.{Bytes, Endian}
use fleetcore.Fleet.{Fifo, key}
use fleetcore.Fleet.Origin.Queues.{Asked, Genuine, Genuine-sent, from_gateway}
use fleetcore.Fleet.Sent.{Extends, Replied, on_lock_response-sent, on_lock_request-sent}
use fleetcore.Gateway.{Gateway, Sockets}
use fleetcore.Gateway as Gate
use fleetcore.IpcMessage.{
  ipc_lock_request_of, ipc_lock_request_object, ipc_lock_response_object,
  ipc_lock_request_of-object, ipc_lock_response_of-object, idx_gateway,
}
use fleetcore.Locator.{Locator, termd_index}
use fleetcore.Locator as Loc
use fleetcore.Locator.Resolve.{
  IsDigits, number, number-lt, resolve_inv, on_lock_request_resolved, on_lock_request_unresolved,
}
use fleetcore.Process.{Severity, dispatch, send_to}
use fleetcore.Proto.{LockRequest, IsHeader}
use fleetcore.Relay.{dispatch-termd, dispatch-gateway, to_gateway}
use fleetcore.ShmTable.{Sem}
use fleetcore.Termd.{Termd, Env, index, term_no}
use fleetcore.Termd as Term
use fleetcore.Termd.Uplink.{acknowledged}
use fleetcore.Wire.Layout.{lock_request_wire}
use fleetcore.Wire.RoundTrip.{IsLockRequest, make-IsLockMessage}

-- locator's own index apart, the index of a terminal is that of the termd of its slot.
pub slot_of-index :
    (n slot : ℕ)
    → n < 10000
    → slot < 2 ^ 31
    → key (index slot) ≡ key (termd_index n)
    → n ≡ term_no slot
unfolding index termd_index term_no
slot_of-index n slot small fits same = omega arith

not_gateway : (n : ℕ) → n < 10000 → key idx_gateway ≢ key (termd_index n)
unfolding termd_index
not_gateway n small same = omega (arith, same)

pub termd_index-fits : (n : ℕ) → termd_index n < 2 ^ 32
unfolding termd_index
termd_index-fits n = omega arith

module _ (e : Endian) {K : Type 0} (fifo : Fifo K) where
  -- What a locator that returns from a request has put into the queues: nothing, or the request with
  -- the index of the four digits.
  pub locator-cases :
      (sem : Sem) (m : LockRequest) (idx : ℕ) (l l' : Locator K) (sev : Severity)
      → IsHeader m.header
      → idx < 2 ^ 32
      → Loc.on_lock_request e fifo.ipc sem (ipc_lock_request_object e (from_gateway m idx)) l
        ≡ some (sev, l')
      → (l'.queues ≡ l.queues)
        ⊎ (IsDigits m.term_no
            × (l'.queues
                ≡ (send_to
                    (fifo.ipc)
                    (termd_index (number m.term_no))
                    (ipc_lock_request_object e (from_gateway m (termd_index (number m.term_no))))
                    l.queues).1))
  locator-cases sem m idx l l' sev fields fits returns =
      let (read, long) = ipc_lock_request_of-object e (from_gateway m idx) fields fits in
      elim (Option-cases (Loc.resolve l.table sem l.rows m.term_no)) [
        | inl stuck ↦ absurd (cc (waits read long stuck))
        | inr (i, found) ↦ elim (Bool-cases (i == 0)) [
          | inl zero_index ↦
              let is : l' ≡ l = cc (
                on_lock_request_unresolved e fifo.ipc sem _ (from_gateway m idx) l read long
                  (found ∙ ap some ((==_iff i 0).0 zero_index))) in
              inl (ap (λ (t : Locator K). t.queues) is)
          | inr other ↦
              let nz : i ≢ 0 = λ z. ground (arith, other, z) in
              let (digits, at) = resolve_inv l.table sem l.rows m.term_no i found nz in
              let resolved =
                on_lock_request_resolved e fifo.ipc sem _ (from_gateway m idx) l i read long found
                  nz in
              let is : l' ≡ record l { queues = _ } = cc resolved in
              inr (
                digits,
                ap (λ (t : Locator K). t.queues) is
                    ∙ ap
                        (λ (j : ℕ).
                          (send_to (fifo.ipc) j (ipc_lock_request_object e (from_gateway m j))
                            l.queues).1)
                        at,
              )
        ]
      ]
    where
      waits :
          ipc_lock_request_of e (ipc_lock_request_object e (from_gateway m idx))
            ≡ from_gateway m idx
          → length (ipc_lock_request_object e (from_gateway m idx)) ≡ 32
          → Loc.resolve l.table sem l.rows m.term_no ≡ none
          → Loc.on_lock_request e fifo.ipc sem (ipc_lock_request_object e (from_gateway m idx)) l
            ≡ none
      waits read long stuck = unfold Loc.on_lock_request in simp (read, long, stuck)

  pub locator-Genuine :
      (heard : Bytes) (sem : Sem) (m : LockRequest) (idx : ℕ) (l l' : Locator K) (sev : Severity)
      → Asked heard m
      → idx < 2 ^ 32
      → Loc.on_lock_request e fifo.ipc sem (ipc_lock_request_object e (from_gateway m idx)) l
        ≡ some (sev, l')
      → Genuine e fifo heard l.queues
      → Genuine e fifo heard l'.queues
  locator-Genuine heard sem m idx l l' sev asked fits returns v =
      elim (locator-cases sem m idx l l' sev asked.contract.fields fits returns) [
        | inl same ↦ subst (Genuine e fifo heard) (sym same) v
        | inr (digits, sent) ↦
            let i = termd_index (number m.term_no) in
            let fits' = termd_index-fits (number m.term_no) in
            let short =
              (ipc_lock_request_of-object e (from_gateway m i) asked.contract.fields fits').1 in
            subst (Genuine e fifo heard) (sym sent) (
              Genuine-sent e fifo i (ipc_lock_request_object e (from_gateway m i))
                (omega (arith, short)) (λ _. (m, i, fits', asked, refl))
                (λ slot fit same. (m, i, fits', asked, refl))
                (λ same. absurd (not_gateway (number m.term_no) (number-lt m.term_no digits) same))
                v)
      ]

  -- An acknowledgement of a request that was heard is put into gateway's queue.
  pub acknowledged-Genuine :
      (heard : Bytes) (now : ℕ) (m : LockRequest) (k : K)
      → Asked heard m
      → Genuine e fifo heard k
      → Genuine e fifo heard (acknowledged e fifo.ipc now m k)
  unfolding index
  acknowledged-Genuine heard now m k asked v =
      let fields =
        (make-IsLockMessage now m.term_no m.header.seq 0 asked.contract.fields.seq_word).1.fields in
      let short = (ipc_lock_response_of-object e (to_gateway now m) fields (omega arith)).1 in
      Genuine-sent e fifo idx_gateway (ipc_lock_response_object e (to_gateway now m))
        (omega (arith, short)) (λ same. absurd (omega (arith, same)))
        (λ slot small same. absurd (omega (arith, same))) (λ _. (m, now, asked, refl)) v

  -- A termd that takes a request from its queue and returns has sent a beginning of it at most, and
  -- has acknowledged it.
  pub termd_took :
      (scratch : Bytes) (env : Env) (msg : Bytes) (m : LockRequest) (idx : ℕ) (d d' : Termd K)
      (sev : Severity)
      → IsLockRequest m
      → idx < 2 ^ 32
      → length scratch ≡ 1024
      → msg ≡ ipc_lock_request_object e (from_gateway m idx)
      → dispatch (Term.handlers e fifo.ipc scratch) env msg d ≡ some (sev, d')
      → Extends (lock_request_wire m) d.sent d'.sent
        × (d'.queues ≡ acknowledged e fifo.ipc env.now m d.queues)
  termd_took scratch env msg m idx d d' sev contract fits size is returns =
      let fields = contract.fields in
      let long = (ipc_lock_request_of-object e (from_gateway m idx) fields fits).1 in
      on_lock_request-sent e fifo.ipc scratch env (from_gateway m idx) d d' sev fields fits size (
        sym (dispatch-termd e fifo.ipc (from_gateway m idx) scratch env d refl long)
        ∙ ap (λ (b : Bytes). dispatch (Term.handlers e fifo.ipc scratch) env b d) (sym is)
        ∙ returns)

  -- What gateway does with an acknowledgement that it takes from its queue.
  pub gateway_took :
      (scratch : Bytes) (env : Sockets) (msg : Bytes) (m : LockRequest) (now : ℕ) (g g' : Gateway K)
      (sev : Severity)
      → IsLockRequest m
      → length scratch ≡ 1024
      → msg ≡ ipc_lock_response_object e (to_gateway now m)
      → dispatch (Gate.handlers e fifo.ipc scratch) env msg g ≡ some (sev, g')
      → Replied e fifo.ipc (to_gateway now m) g (some (sev, g'))
  gateway_took scratch env msg m now g g' sev contract size is returns =
      let fields =
        (make-IsLockMessage now m.term_no m.header.seq 0 contract.fields.seq_word).1.fields in
      let long = (ipc_lock_response_of-object e (to_gateway now m) fields (omega arith)).1 in
      subst (Replied e fifo.ipc (to_gateway now m) g)
        (sym (dispatch-gateway e fifo.ipc (to_gateway now m) scratch env g refl long)
          ∙ ap (λ (b : Bytes). dispatch (Gate.handlers e fifo.ipc scratch) env b g) (sym is)
          ∙ returns)
        (on_lock_response-sent e fifo.ipc scratch env (to_gateway now m) g fields (omega arith)
          size)
