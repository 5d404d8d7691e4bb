-- ===== src/Tests.antt =====
-- Concrete messages, buffers and hosts, and each property at such an input.
mod Codec
mod Framed
mod Shared
mod Sockets
mod Hosts
mod Routing
mod Devices
mod Journey
mod Loop
mod Screens
mod Tools
mod Processes
mod Kernel
mod Presses
mod Told
mod Orders
mod Starts
mod Owners
use fleetcore.Prelude.{
  ℕ, ◌≡◌, refl, true, some, none, List, [], ◌∷◌, ◌++◌, arith, length, replicate, take, drop,
}
use fleetcore.Bytes.{Bytes}
use fleetcore.IpcMessage.{IpcLockRequest, IpcLockResponse}
use fleetcore.Process.{Ipc}
use fleetcore.Proto.{Header, IsHeader, TermNo, LockRequest, LockResponse, zero_pad}
use fleetcore.ShmTable.{ShmTable}
use fleetcore.ShmTable.Rows.{Table, TermEntry, zero_entry, fresh_entry}
use fleetcore.TcpServer.{TcpServer}
use fleetcore.Wire.Decode.{Accepted}
use fleetcore.Wire.RoundTrip.{IsLockRequest, IsLockResponse}

-- Terminal 1003.
abbrev pub term_1003 : TermNo
term_1003 = record { c0 = b'1'; c1 = b'0'; c2 = b'0'; c3 = b'3' }

abbrev pub header_of_request : Header
header_of_request = record {
  magic_0 = b'F';
  magic_1 = b'C';
  version = 1;
  code = 16;
  len = 24;
  seq = 7;
  timestamp = 99;
  reserved = 0;
}

abbrev pub header_of_response : Header
header_of_response = record header_of_request { code = 32; len = 28 }

abbrev pub request : LockRequest
request = record { header = header_of_request; term_no = term_1003 }

abbrev pub response : LockResponse
response = record {
  header = header_of_response;
  term_no = term_1003;
  outcome = 2;
  reserved = zero_pad;
}

header_of_request-IsHeader : IsHeader header_of_request
header_of_request-IsHeader = ground arith

header_of_response-IsHeader : IsHeader header_of_response
header_of_response-IsHeader = ground arith

header_of_request-Accepted : Accepted header_of_request
header_of_request-Accepted = ground arith

request-IsLockRequest : IsLockRequest request
request-IsLockRequest = ground arith

response-IsLockResponse : IsLockResponse response
response-IsLockResponse = ground arith

abbrev pub internal_request : IpcLockRequest
internal_request = record { ipc = record { code = 1; dest_index = 0 }; msg = request }

abbrev pub internal_response : IpcLockResponse
internal_response = record { ipc = record { code = 2; dest_index = 1000 }; msg = response }

-- A buffer on the stack.
abbrev pub scratch : Bytes
scratch = replicate 1024 0

-- Queues that keep what is sent, the latest first, under the queue's key.
abbrev pub Queues : Type 0
Queues = List (ℕ × Bytes)

abbrev pub keeping : Ipc Queues
keeping = record { msgget = λ key k. some key; msgsnd = λ id msg k. (true, (id, msg) ∷ k) }

-- A table that is open, with terminal 1003 in its first row and free rows behind it.
abbrev pub open_one : ShmTable
open_one = record { sem_id = some 5; attached = true }

abbrev pub row_1003 : TermEntry
row_1003 = fresh_entry 1003

abbrev pub small_table : Table
small_table = row_1003 ∷ zero_entry ∷ zero_entry ∷ []

abbrev pub whole_table : Table
whole_table = row_1003 ∷ replicate 63 zero_entry

abbrev pub connected : TcpServer
connected = record { listen_fd = some 3; client_fd = some 4 }

abbrev pub waiting : TcpServer
waiting = record { listen_fd = some 3; client_fd = none }
