-- ===== src/Tests/Tools.antt =====
-- The tools, and the arguments of the programs.
use fleetcore.Prelude.{
  ℕ, ◌≡◌, ◌↔◌, ◌%◌, ◌<◌, refl, true, false, not, ◌==◌, Option, none, some, List, [], ◌∷◌, arith,
  length,
}
use fleetcore.Argument.{pos, digits, number, read_slot}
use fleetcore.Argument.Decimal.{AllDigits, decimal, read_slot_iff}
use fleetcore.Bytes.{Bytes, little}
use fleetcore.LayoutDump.{dump, tells, header_fields, IsPacked, dump-tells}
use fleetcore.Msggen.{main, term_no_at, Named, wire_of, main_writes}
use fleetcore.TermGui.{port_argument}
use fleetcore.TermGui.Port.{port_argument-port}
use fleetcore.Termd.{Termd, slot_argument, on_init}
use fleetcore.TcpServer.{ListenCalls, unconnected}
use fleetcore.ShmTable.{done}
use fleetcore.ShmTable.Locking.{answers}
use fleetcore.Tests.Shared.{slow_creator}
use fleetcore.Tests.Devices.{process_1003}
use fleetcore.Tests.{Queues, scratch}
use fleetcore.Wire.{make_lock_request}
use fleetcore.Wire.Layout.{lock_request_wire}

-- "3", "65539" and "1003".
abbrev three : Bytes
three = b'3' ∷ []

abbrev wrapped : Bytes
wrapped = b'6' ∷ b'5' ∷ b'5' ∷ b'3' ∷ b'9' ∷ []

abbrev terminal : Bytes
terminal = b'1' ∷ b'0' ∷ b'0' ∷ b'3' ∷ []

read_slot_iff_example :
    (read_slot (pos 0) wrapped ≡ some 65539)
    ↔ (AllDigits wrapped × (decimal wrapped ≡ 65539) × (0 < 65539) × (65539 < 2147483648))
read_slot_iff_example = read_slot_iff (pos 0) wrapped 65539

-- bind refuses port 9203.
abbrev taken_port : ListenCalls
taken_port = record {
  socket = some 5;
  bind_ok = λ p. not (p == 9203);
  listen_ok = true;
  nonblocking_ok = true;
}

abbrev starting : Termd Queues
starting = record process_1003 { tcp = unconnected }

port_argument-port_example :
    (on_init taken_port slow_creator (answers 0 done 0) starting
      ≡ some (false, record starting { tcp = record { listen_fd = some 5; client_fd = none } }))
    × ((◌≡◌ {A = ℕ} 9203 0) ↔ (3 % 65536 ≡ 56336))
    × ((port_argument ([] ∷ three ∷ []) ≡ port_argument ([] ∷ wrapped ∷ []))
        ↔ (3 % 65536 ≡ 65539 % 65536))
unfolding slot_argument read_slot digits number port_argument
port_argument-port_example =
    port_argument-port ([] ∷ three ∷ []) ([] ∷ wrapped ∷ []) 3 65539 9203 5 taken_port slow_creator
      (answers 0 done 0) starting refl refl refl refl refl refl

-- msggen 1003 3
abbrev arguments : List Bytes
arguments = [] ∷ terminal ∷ three ∷ []

abbrev takes : Bytes → Option ℕ
takes bs = some (length bs)

abbrev wire : Bytes
wire = lock_request_wire (make_lock_request 99 (term_no_at terminal) 3)

main_writes_example :
    (((main little 99 scratch takes arguments).status ≡ 0)
      ↔ ((n : Named arguments) × (takes (wire_of 99 n) ≡ some 24)))
    × (((main little 99 scratch takes arguments).handed ≡ some wire)
        ↔ ((n : Named arguments) × (wire ≡ wire_of 99 n)))
main_writes_example = main_writes little 99 scratch takes arguments wire refl

dump-tells_example : (tells (dump "Header" 20 header_fields) ≡ []) ↔ IsPacked header_fields 20 0
dump-tells_example = dump-tells "Header" 20 header_fields (omega arith) (omega arith)
