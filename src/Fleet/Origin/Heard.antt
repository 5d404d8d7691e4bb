-- ===== src/Fleet/Origin/Heard.antt =====
-- The requests that gateway puts into locator's queue come from what it reads.
use fleetcore.Prelude.{refl, sym, ap, ◌∙◌, ◌++◌, append-nil, append_assoc, arith, drop}
use fleetcore.Bytes.{Bytes, Endian}
use fleetcore.Fleet.{Fifo}
use fleetcore.Fleet.Origin.Queues.{Asked, Genuine, Genuine-append, Genuine-sent, from_gateway}
use fleetcore.Gateway.Handling.{forwarded}
use fleetcore.Fleet.Reads.{Reading}
use fleetcore.StreamBuffer.Heard.{Ends, Ends-drop}
use fleetcore.IpcMessage.{ipc_lock_request_object, ipc_lock_request_of-object, idx_locator}
use fleetcore.Proto.{LockRequest}
use fleetcore.Termd.{index}

module _ (e : Endian) {K : Type 0} (fifo : Fifo K) where
  request_forwarded :
      (heard : Bytes) (m : LockRequest) (k : K)
      → Asked heard m
      → Genuine e fifo heard k
      → Genuine e fifo heard (forwarded e fifo.ipc m k)
  unfolding index
  request_forwarded heard m k asked v =
      let short =
        (ipc_lock_request_of-object e (from_gateway m 0) asked.contract.fields (omega arith)).1 in
      Genuine-sent e fifo idx_locator (ipc_lock_request_object e (from_gateway m 0))
        (omega (arith, short)) (λ _. (m, 0, omega arith, asked, refl))
        (λ slot small same. absurd (omega (arith, same))) (λ same. absurd (omega (arith, same))) v

  -- The queues hold only what comes from requests that were heard, and the buffer the last that was
  -- heard.
  abbrev pub Hears : Bytes → Bytes → K → Type 0
  Hears heard buf k = Ends heard buf × Genuine e fifo heard k

  pub Hears-Reading : Reading e fifo.ipc Hears
  Hears-Reading = record {
    forwards = λ heard buf len m k contract room split (ends, v).
        let (before, is) = ends in
        let asked : Asked heard m = record {
          contract = contract;
          stands = (before, drop 24 buf, is ∙ ap (◌++◌ before) split);
        } in
        (Ends-drop heard len buf ends, request_forwarded heard m k asked v);
    skips = λ heard buf len k (ends, v). (Ends-drop heard len buf ends, v);
    resets = λ heard buf k (ends, v). ((heard, sym (append-nil heard)), v);
    hears = λ heard buf chunk k (ends, v).
        let (before, is) = ends in
        (
          (before, ap (λ (b : Bytes). b ++ chunk) is ∙ append_assoc before buf chunk),
          Genuine-append e fifo chunk v,
        );
  }
