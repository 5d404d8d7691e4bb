-- ===== src/Tests/Devices.antt =====
-- The process of terminal 1003 at connections, requests and bytes that are no message.
use fleetcore.Prelude.{◌≡◌, ◌≢◌, refl, some, none, [], ◌∷◌, drop}
use fleetcore.Bytes.{Bytes, little}
use fleetcore.Proto.{zero_header}
use fleetcore.ShmTable.{done}
use fleetcore.ShmTable.Locking.{answers}
use fleetcore.StreamBuffer.{empty, next}
use fleetcore.StreamBuffer.Framing.{buffer}
use fleetcore.TcpServer.{bytes, would_block, took, drop_client}
use fleetcore.Termd.{Termd, Env, term_no, index, handlers}
use fleetcore.Termd as Term
use fleetcore.Termd.Link.{on_idle_stale}
use fleetcore.Tests.{Queues, internal_request, open_one, small_table, connected}
use fleetcore.Wire.{wire_ok, unpack_header}
use fleetcore.Wire.Layout.{lock_request_wire}

abbrev pub process_1003 : Termd Queues
process_1003 = record {
  tcp = connected;
  rx = buffer (b'F' ∷ []);
  slot = 3;
  table = open_one;
  rows = small_table;
  queues = [];
  sent = [];
}

-- A round in which nothing comes, two writes of 20 bytes are taken, and the semaphore is free.
abbrev pub quiet_round : Env
quiet_round = record {
  accept = none;
  recv = would_block;
  sends = took 20 ∷ took 20 ∷ [];
  sem_up = answers 0 done 0;
  sem_down = answers 1 done 0;
  now = 5000;
}

abbrev noise : Bytes
noise = 71 ∷ 69 ∷ 84 ∷ 32 ∷ 47 ∷ 32 ∷ drop 6 (lock_request_wire internal_request.msg)

abbrev noise_round : Env
noise_round = record quiet_round { recv = bytes (drop 1 noise) }

abbrev heard : Termd Queues
heard = record process_1003 { rx = buffer (71 ∷ []) }

noise_out : next (buffer noise) ≡ some (noise, 24)
unfolding next fleetcore.Bytes.load_be16
noise_out = refl

noise_refused : (unpack_header little noise 24 zero_header).0 ≢ wire_ok
unfolding unpack_header fleetcore.Wire.check_header fleetcore.Wire.read_header
noise_refused = λ e. cc

on_idle_stale_example :
    (Term.on_idle little noise_round heard
      ≡ some (record heard { tcp = drop_client connected; rx = empty }))
    × (Term.on_idle little quiet_round (record heard { tcp = drop_client connected; rx = empty })
        ≡ some (record heard { tcp = drop_client connected; rx = empty }))
on_idle_stale_example =
    on_idle_stale little noise_round quiet_round heard 4 69 24 (drop 2 noise) noise refl refl refl
      noise_out noise_refused refl
