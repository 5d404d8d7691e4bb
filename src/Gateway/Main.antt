-- ===== src/Gateway/Main.antt =====
-- gateway/main.cpp, `main`: the process from its start to its end.
use fleetcore.Prelude.{ℕ, Bool, Option, some, List, []}
use fleetcore.Bytes.{Bytes, Endian}
use fleetcore.Gateway.{Gateway, Sockets, on_idle, on_init, handlers}
use fleetcore.IpcMessage.{idx_gateway}
use fleetcore.Process.{Ipc, Event, Ending}
use fleetcore.Process.Life.{Process, construct, init, init_then_run}
use fleetcore.StreamBuffer.{empty}
use fleetcore.TcpServer.{ListenCalls, unconnected}

abbrev pub constructed : {K : Type 0} → K → Gateway K
constructed k = record { tcp = unconnected; rx = empty; queues = k; sent = [] }

module _ {K : Type 0} (e : Endian) (ipc : Ipc K) (scratch : Bytes) where
  -- `on_init` on the whole process.
  unfoldable pub initialise :
      ListenCalls → Process Sockets (Gateway K) → Option (Bool × Process Sockets (Gateway K))
  unfolding on_init
  initialise calls p =
      let (ok, g) = on_init e ipc calls p.running.inner in
      some (
        ok,
        record p { handlers = handlers e ipc scratch; running = record (p.running) { inner = g } },
      )

  -- `main`, with what msgget answers, the calls of `listen`, what the loop meets, and the queues.
  unfoldable pub main :
      Option ℕ → ListenCalls → List (Event Sockets) → K → Ending × Process Sockets (Gateway K)
  unfolding init init_then_run construct initialise
  main made calls events k =
      init_then_run (on_idle e ipc) events
        (init made (initialise calls) (construct idx_gateway (constructed k)))
