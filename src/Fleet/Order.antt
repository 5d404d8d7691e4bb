-- ===== src/Fleet/Order.antt =====
-- The order in which a terminal is sent its requests, and that each is sent once.
pub mod Turns
pub mod Way
pub mod Handover
pub mod Delivered
pub mod Steps
pub mod Taken
use fleetcore.Prelude.{ℕ, ◌<◌, ◌^◌, refl, sym, subst, List, [], ◌++◌, append-nil}
use fleetcore.Bytes.{Bytes, Endian}
use fleetcore.Fleet.{
  Fifo, Fleet, with_termd, Step, gateway_idles, gateway_takes, locator_takes, termd_idles,
  termd_takes, Reach, here, later,
}
use fleetcore.Proto.{LockRequest}
use fleetcore.StreamBuffer.Serve.{All}
use fleetcore.Fleet.Origin.Kept.{Honest}
use mathlib.Core.List.{Sublist, sublist-append_left}
use mathlib.Core.List.Sublist
use fleetcore.Fleet.Order.Turns.{
  InTurn, InTurn-append, for_slot, no_request, MadeOf, nothing_sent, Names,
}
use fleetcore.Fleet.Order.Way.{Carries}
use fleetcore.Fleet.Origin.{Started, hears, heard, Reach-Honest}
use fleetcore.Fleet.Order.Taken.{termd_takes-Line}
use fleetcore.Fleet.Order.Steps.{LineOf, idles-Line, takes-Line, locator-Line, termd_idles-Line}

module _ (e : Endian) {K : Type 0} (fifo : Fifo K) (slot : ℕ) (small : slot < 2 ^ 31) where
  Started-Line : (f : Fleet K) → Started fifo f → LineOf e fifo slot small [] f
  Started-Line f s = record {
    asked = [];
    routing = [];
    routed = [];
    done = [];
    before = [];
    split = sym s.nothing_read;
    turn = no_request refl;
    at_locator = subst (λ (w : List Bytes). Carries e w []) (sym s.locator_idle) tt;
    at_termd = subst (λ (w : List Bytes). Carries e w []) (sym (s.termd_idle slot small)) tt;
    routed_names = tt;
    done_names = tt;
    made = nothing_sent refl (s.nothing_delivered slot small);
    order = Sublist.refl [];
  }

  unheard-Line :
      (so_far : Bytes) (g : Fleet K)
      → LineOf e fifo slot small so_far g
      → LineOf e fifo slot small (so_far ++ []) g
  unheard-Line so_far g v =
      subst (λ (b : Bytes). LineOf e fifo slot small b g) (sym (append-nil so_far)) v

  Step-Line :
      (so_far : Bytes) {f g : Fleet K} (s : Step fifo e f g)
      → Honest e fifo so_far f
      → LineOf e fifo slot small so_far f
      → LineOf e fifo slot small (so_far ++ hears s) g
  unfolding hears
  Step-Line so_far {f} (gateway_idles env g read quiet returns) h v =
      idles-Line e fifo slot small so_far f env g read returns h v
  Step-Line so_far {f} (gateway_takes scratch env msg rest sev g size front returns) h v =
      unheard-Line so_far (record f { kernel = g.queues; gateway = g })
        (takes-Line e fifo slot small so_far f scratch env msg rest sev g size front returns h v)
  Step-Line so_far {f} (locator_takes sem msg rest sev l front returns) h v =
      unheard-Line so_far (record f { kernel = l.queues; rows = l.rows; locator = l })
        (locator-Line e fifo slot small so_far f sem msg rest sev l front returns v)
  Step-Line so_far {f} (termd_idles other env d fit quiet returns) h v =
      unheard-Line so_far
        (record f { kernel = d.queues; rows = d.rows; termds = with_termd f.termds other d })
        (termd_idles-Line e fifo slot small so_far f other env d returns v)
  Step-Line so_far {f} (termd_takes other scratch env msg rest sev d fit size front returns) h v =
      unheard-Line so_far
        (record f { kernel = d.queues; rows = d.rows; termds = with_termd f.termds other d })
        (termd_takes-Line e fifo slot small so_far f other scratch env msg rest sev d fit size front
          returns h v)

  Reach-Line :
      {f g : Fleet K}
      → Started fifo f
      → (r : Reach fifo e f g) → LineOf e fifo slot small (heard r) g
  unfolding heard
  Reach-Line s here = Started-Line _ s
  Reach-Line s (later r step) = Step-Line (heard r) step (Reach-Honest e fifo s r) (Reach-Line s r)

  -- A terminal is sent what was asked for it, in order and each request once at most. From a start
  -- at which nothing waits and nothing has been sent, whatever the processes of the host do, in any
  -- order, and whatever their sockets, the semaphore and the table answer: what the terminal of a
  -- slot has been sent is a beginning of each of some lock requests, one behind the other, all of
  -- which name this terminal, and which are, in this order, some of the requests that meet the
  -- contract and stand one behind the other in what gateway read from the maintenance terminal.
  pub sent_in_order :
      {f g : Fleet K} (r : Reach fifo e f g)
      → Started fifo f
      → (asked done : List LockRequest) × InTurn asked (heard r)
        × Sublist done asked
        × All (Names slot) done
        × MadeOf done (g.termds slot).sent
  sent_in_order {g = g} r s =
      let v = Reach-Line s r in
      (
        v.asked,
        v.done,
        subst (InTurn v.asked) (sym v.split) (InTurn-append g.gateway.rx.bytes v.turn),
        Sublist.trans (sublist-append_left v.done (v.routed ++ for_slot slot v.routing)) v.order,
        v.done_names,
        v.made,
      )
