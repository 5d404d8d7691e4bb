-- ===== src/TermGui/Port.antt =====
-- Which port a vehicle terminal dials, against the one that its termd listens on.
use mathlib.Core.Option.{some-injective, none-ne-some}
use fleetcore.Prelude.{ℕ, ◌%◌, ◌≡◌, ◌↔◌, refl, ap, sym, ◌∙◌, false, some, List, [], ◌∷◌, arith}
use fleetcore.Argument.{ℤ, pos, read_slot}
use fleetcore.Argument.Decimal.{read_slot_iff}
use fleetcore.Bytes.{Bytes}
use fleetcore.TermGui.{port_argument}
use fleetcore.Termd.{Termd, slot_argument, port, on_init}
use fleetcore.TcpServer.{TcpServer, ListenCalls, listen}
use fleetcore.ShmTable.{Sem}
use fleetcore.ShmTable.Open.{Kernel}

-- The number there before does not matter.
read_slot-any :
    (a b : ℤ) (arg : Bytes) (n : ℕ) → read_slot a arg ≡ some n → read_slot b arg ≡ some n
read_slot-any a b arg n r = (read_slot_iff b arg n).1 ((read_slot_iff a arg n).0 r)

dials :
    (argv : List Bytes) (n : ℕ) → slot_argument argv ≡ some n → port_argument argv ≡ some (port n)
unfolding port_argument slot_argument port
dials [] n r = absurd (none-ne-some n r)
dials (program ∷ []) n r = absurd (none-ne-some n r)
dials (program ∷ arg ∷ args) n r = rw (read_slot-any (pos 0) (pos 1) arg n r, port_argument)

refused_listen :
    (at : ℕ) (calls : ListenCalls) (t : TcpServer) (fd : ℕ)
    → calls.socket ≡ some fd
    → calls.bind_ok at ≡ false
    → listen at calls t ≡ (false, record t { listen_fd = some fd })
unfolding listen
refused_listen at calls t fd made refused = rw (made, listen) (rw refused refl)

refused_port :
    {K : Type 0} (calls : ListenCalls) (kernel : Kernel) (sem : Sem) (d : Termd K) (fd : ℕ)
    → calls.socket ≡ some fd
    → calls.bind_ok (port d.slot) ≡ false
    → on_init calls kernel sem d
      ≡ some (false, record d { tcp = record d.tcp { listen_fd = some fd } })
unfolding on_init
refused_port calls kernel sem d fd made refused =
    rw (refused_listen (port d.slot) calls d.tcp fd made refused, on_init) refl

-- Started with the same arguments, a termd that takes them asks bind for the port that the terminal
-- dials, and if bind refuses that port, `on_init` fails with nothing but the socket made. That port is
-- 0, for which bind does not refuse but chooses another port, exactly if the slot is 56336 modulo
-- 65536; and the terminals of two termd dial the same port exactly if their slots are the same modulo
-- 65536.
pub port_argument-port :
    {K : Type 0} (argv argv' : List Bytes) (n m p fd : ℕ) (calls : ListenCalls) (kernel : Kernel)
    (sem : Sem) (d : Termd K)
    → slot_argument argv ≡ some n
    → slot_argument argv' ≡ some m
    → port_argument argv ≡ some p
    → d.slot ≡ n
    → calls.socket ≡ some fd
    → calls.bind_ok p ≡ false
    → (on_init calls kernel sem d
        ≡ some (false, record d { tcp = record d.tcp { listen_fd = some fd } }))
      × ((p ≡ 0) ↔ (n % 65536 ≡ 56336))
      × ((port_argument argv ≡ port_argument argv') ↔ (n % 65536 ≡ m % 65536))
unfolding port
port_argument-port argv argv' n m p fd calls kernel sem d r r' dialled served made refused =
    let same_port : p ≡ port n = some-injective p (port n) (sym dialled ∙ dials argv n r) in
    (
      refused_port calls kernel sem d fd made
          (ap calls.bind_ok (ap port served ∙ sym same_port) ∙ refused),
      ((λ zero. omega (arith, zero, same_port)), (λ low. omega (arith, low, same_port))),
      (
        (λ same. omega (
          arith,
          some-injective (port n) (port m) (sym (dials argv n r) ∙ same ∙ dials argv' m r'),
        )),
        (λ same. dials argv n r ∙ ap some (omega (arith, same)) ∙ sym (dials argv' m r')),
      ),
    )
