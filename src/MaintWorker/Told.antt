-- ===== src/MaintWorker/Told.antt =====
-- What the signals queued for the maintenance screen tell.
use fleetcore.Prelude.{
  ℕ, zero, suc, ◌+◌, ◌%◌, ◌^◌, ◌≡◌, refl, sym, ap, ◌∙◌, List, [], ◌∷◌, ◌++◌, append_assoc,
  append-nil, arith,
}
use fleetcore.Bytes.{Bytes, AreBytes}
use fleetcore.MaintWorker.{Signal, ack_received, link_state_changed, log_line, LogLine, lock_sent}
use fleetcore.StreamBuffer.Serve.{All, All-append, All-map}
use fleetcore.StreamBuffer.Heard.{Rest, Rest-append, StandsIn, StandsIn-append}
use fleetcore.Proto.{LockResponse}
use fleetcore.Wire.Layout.{lock_response_wire}
use fleetcore.Wire.RoundTrip.{IsLockResponse}

-- An acknowledgement that is handed over meets the contract, and stands in what was read.
abbrev pub Answered : Bytes → LockResponse → Type 0
Answered heard m = IsLockResponse m × StandsIn (lock_response_wire m) heard

abbrev pub MeetsContract : {Q : Type 0} → Bytes → Signal Q → Type 0
MeetsContract heard (ack_received m) = Answered heard m
MeetsContract heard (link_state_changed connected) = Unit {0}
MeetsContract heard (log_line line) = Unit {0}

pub Answered-append :
    (heard chunk : Bytes) (m : LockResponse) → Answered heard m → Answered (heard ++ chunk) m
Answered-append heard chunk m (meets, stands) =
    (meets, StandsIn-append (lock_response_wire m) heard chunk stands)

more_heard :
    {Q : Type 0} (heard chunk : Bytes) (sig : Signal Q)
    → MeetsContract heard sig
    → MeetsContract (heard ++ chunk) sig
more_heard heard chunk (ack_received m) answered = Answered-append heard chunk m answered
more_heard heard chunk (link_state_changed connected) h = tt
more_heard heard chunk (log_line line) h = tt

-- The number of the request that a line tells of, if it tells of one that was sent.
abbrev pub number_of : {Q : Type 0} → LogLine Q → List ℕ
number_of (lock_sent text seq) = seq ∷ []
number_of _ = []

abbrev pub numbers_of : {Q : Type 0} → List (Signal Q) → List ℕ
numbers_of [] = []
numbers_of (log_line line ∷ signals) = number_of line ++ numbers_of signals
numbers_of (_ ∷ signals) = numbers_of signals

-- The first `n` sequence numbers: 1, 2 and so on, with 0 behind 65535.
abbrev pub first_numbers : ℕ → List ℕ
first_numbers zero = []
first_numbers (suc n) = first_numbers n ++ ((n + 1) % 2 ^ 16 ∷ [])

numbers_of-append :
    {Q : Type 0} (xs ys : List (Signal Q)) → numbers_of (xs ++ ys) ≡ numbers_of xs ++ numbers_of ys
numbers_of-append [] ys = refl
numbers_of-append (ack_received m ∷ xs) ys = numbers_of-append xs ys
numbers_of-append (link_state_changed connected ∷ xs) ys = numbers_of-append xs ys
numbers_of-append (log_line line ∷ xs) ys =
    ap (◌++◌ (number_of line)) (numbers_of-append xs ys)
    ∙ sym (append_assoc (number_of line) (numbers_of xs) (numbers_of ys))

-- `before` are the numbers that the screen has been told of already.
pub record Told {Q : Type 0} (before : List ℕ) (heard bytes : Bytes) (emitted : List (Signal Q))
    (seq : ℕ) : Type 0 where
  pub rest : Rest heard bytes
  pub meet : All (MeetsContract heard) emitted
  pub count : ℕ
  pub numbered : before ++ numbers_of emitted ≡ first_numbers count
  pub next_is : seq ≡ (count + 1) % 2 ^ 16

module _ {Q : Type 0} {before : List ℕ} {emitted : List (Signal Q)} {seq : ℕ}
    {heard bytes : Bytes} where
  pub Told-bytes :
      (left : Bytes)
      → Rest heard left
      → Told before heard bytes emitted seq
      → Told before heard left emitted seq
  Told-bytes left p v = record {
    rest = p;
    meet = v.meet;
    count = v.count;
    numbered = v.numbered;
    next_is = v.next_is;
  }

  pub Told-append :
      (chunk : Bytes)
      → AreBytes chunk
      → Told before heard bytes emitted seq
      → Told before (heard ++ chunk) (bytes ++ chunk) emitted seq
  Told-append chunk p v = record {
    rest = Rest-append heard bytes chunk p v.rest;
    meet =
        All-map (MeetsContract heard) (MeetsContract (heard ++ chunk)) (more_heard heard chunk)
          emitted v.meet;
    count = v.count;
    numbered = v.numbered;
    next_is = v.next_is;
  }

  -- Signals that tell of no request.
  pub Told-emit :
      (signals : List (Signal Q))
      → All (MeetsContract heard) signals
      → numbers_of signals ≡ []
      → Told before heard bytes emitted seq
      → Told before heard bytes (emitted ++ signals) seq
  Told-emit signals ps quiet v = record {
    rest = v.rest;
    meet = All-append (MeetsContract heard) emitted signals v.meet ps;
    count = v.count;
    numbered =
        ap (◌++◌ before) (
          numbers_of-append emitted signals
          ∙ ap (◌++◌ (numbers_of emitted)) quiet
          ∙ append-nil (numbers_of emitted))
        ∙ v.numbered;
    next_is = v.next_is;
  }

  -- The line of a request that was sent.
  pub Told-sent :
      (text : Q)
      → Told before heard bytes emitted seq
      → Told before heard bytes
          (emitted ++ (log_line (lock_sent text seq) ∷ []))
          ((seq + 1) % 2 ^ 16)
  Told-sent text v = record {
    rest = v.rest;
    meet =
        All-append (MeetsContract heard) emitted (log_line (lock_sent text seq) ∷ []) v.meet
          (tt, tt);
    count = suc v.count;
    numbered =
        ap (◌++◌ before) (numbers_of-append emitted (log_line (lock_sent text seq) ∷ []))
        ∙ sym (append_assoc before (numbers_of emitted) (seq ∷ []))
        ∙ ap (λ (l : List ℕ). l ++ (seq ∷ [])) v.numbered
        ∙ ap (λ (n : ℕ). first_numbers v.count ++ (n ∷ [])) v.next_is;
    next_is = omega (arith, v.next_is);
  }
