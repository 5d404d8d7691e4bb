-- ===== src/Fleet/Origin.antt =====
-- Where everything that the two terminals are sent comes from, for the processes of one host.
pub mod Queues
pub mod Heard
pub mod Kept
use fleetcore.Prelude.{ℕ, ◌<◌, ◌^◌, ◌≡◌, sym, subst, [], ◌++◌, append-nil}
use fleetcore.Bytes.{Bytes, AreBytes, Endian}
use fleetcore.Fleet.{
  read_by, Fifo, key, Fleet, Step, gateway_idles, gateway_takes, locator_takes, termd_idles,
  termd_takes, Reach, here, later,
}
use fleetcore.Fleet.Origin.Queues.{Request, Ack}
use fleetcore.IpcMessage.{idx_gateway, idx_locator}
use fleetcore.StreamBuffer.Serve.{All}
use fleetcore.Termd.{index}
use fleetcore.Wire.Layout.{lock_response_wire}
use fleetcore.Fleet.Origin.Kept.{
  Pieces, no_piece, Answers, Honest, idles-Honest, takes-Honest, locator-Honest, termd_idles-Honest,
  termd_takes-Honest,
}

-- What a step hears from the maintenance terminal, and all that was heard on the way.
unfoldable pub hears :
    {K : Type 0} {fifo : Fifo K} {e : Endian} {f g : Fleet K} → Step fifo e f g → Bytes
hears {f = f} (gateway_idles env g read quiet returns) = read_by env f.gateway
hears _ = []

unfoldable pub heard :
    {K : Type 0} {fifo : Fifo K} {e : Endian} {f g : Fleet K} → Reach fifo e f g → Bytes
unfolding hears
heard here = []
heard (later r s) = heard r ++ hears s

-- Nothing waits in the queues of the host, gateway has read nothing that it still keeps, and the
-- terminals have been sent nothing.
pub record Started {K : Type 0} (fifo : Fifo K) (f : Fleet K) : Type 0 where
  pub locator_idle : fifo.waits (key idx_locator) f.kernel ≡ []
  pub termd_idle : (slot : ℕ) → slot < 2 ^ 31 → fifo.waits (key (index slot)) f.kernel ≡ []
  pub gateway_idle : fifo.waits (key idx_gateway) f.kernel ≡ []
  pub nothing_read : f.gateway.rx.bytes ≡ []
  pub nothing_answered : f.gateway.sent ≡ []
  pub nothing_delivered : (slot : ℕ) → slot < 2 ^ 31 → (f.termds slot).sent ≡ []

module _ (e : Endian) {K : Type 0} (fifo : Fifo K) where
  Started-Honest : (f : Fleet K) → Started fifo f → Honest e fifo [] f
  Started-Honest f s = record {
    bytes = subst AreBytes (sym s.nothing_read) tt;
    ends = ([], sym s.nothing_read);
    queues = record {
      at_locator = subst (All (Request e [])) (sym s.locator_idle) tt;
      at_termd = λ slot small. subst (All (Request e [])) (sym (s.termd_idle slot small)) tt;
      at_gateway = subst (All (Ack e [])) (sym s.gateway_idle) tt;
    };
    answered = no_piece s.nothing_answered;
  }

  nothing_heard :
      (so_far : Bytes) (g : Fleet K) → Honest e fifo so_far g → Honest e fifo (so_far ++ []) g
  nothing_heard so_far g v = subst (λ (b : Bytes). Honest e fifo b g) (sym (append-nil so_far)) v

  Step-Honest :
      (so_far : Bytes) {f g : Fleet K} (s : Step fifo e f g)
      → Honest e fifo so_far f
      → Honest e fifo (so_far ++ hears s) g
  unfolding hears
  Step-Honest so_far {f} (gateway_idles env g read quiet returns) v =
      idles-Honest e fifo so_far f env g read returns v
  Step-Honest so_far {f} (gateway_takes scratch env msg rest sev g size front returns) v =
      nothing_heard so_far _
        (takes-Honest e fifo so_far f scratch env msg rest sev g size front returns v)
  Step-Honest so_far {f} (locator_takes sem msg rest sev l front returns) v =
      nothing_heard so_far _ (locator-Honest e fifo so_far f sem msg rest sev l front returns v)
  Step-Honest so_far {f} (termd_idles slot env d small quiet returns) v =
      nothing_heard so_far _ (termd_idles-Honest e fifo so_far f slot env d returns v)
  Step-Honest so_far {f} (termd_takes slot scratch env msg rest sev d small size front returns) v =
      nothing_heard so_far _ (
        termd_takes-Honest e fifo so_far f slot scratch env msg rest sev d small size front returns
          v)

  pub Reach-Honest :
      {f g : Fleet K} → Started fifo f → (r : Reach fifo e f g) → Honest e fifo (heard r) g
  unfolding heard
  Reach-Honest s here = Started-Honest _ s
  Reach-Honest s (later r step) = Step-Honest (heard r) step (Reach-Honest s r)

  -- No acknowledgement is made up. From a start at which nothing waits and nothing has been sent,
  -- whatever the processes of the host do, in any order, and whatever their sockets, the semaphore
  -- and the table answer: what the maintenance terminal has been sent is made of beginnings of
  -- responses with result 0, each of which has the terminal number and the sequence number of a
  -- lock request that meets the contract and stands in what gateway read from the maintenance
  -- terminal.
  pub only_asked :
      {f g : Fleet K} (r : Reach fifo e f g)
      → Started fifo f
      → Pieces (Answers (heard r)) lock_response_wire g.gateway.sent
  only_asked r s = (Reach-Honest s r).answered
