-- ===== src/MaintWorker/Send.antt =====
-- What the maintenance screen sends when the button is pressed.
use fleetcore.Prelude.{
  ℕ, ◌+◌, ◌%◌, ◌^◌, ◌<◌, ◌≡◌, ◌≢◌, ◌⊎◌, inl, inr, refl, ap, sym, ◌∙◌, true, false, Option, none,
  some, List, [], ◌∷◌, ◌++◌, append_assoc, append-nil, arith, length, drop, take-length-append,
  ==_ne,
}
use fleetcore.Bytes.{Bytes, Endian, byte_at}
use fleetcore.MaintWorker.{
  MaintWorker, log_line, LogLine, not_connected, bad_number, lock_sent, term_no_at, send_lock,
}
use fleetcore.Proto.{LockRequest}
use fleetcore.Qt.{QtSocket, is_connected}
use fleetcore.StreamBuffer.Serve.{All, all_wires}
use fleetcore.Wire.{make_lock_request}
use fleetcore.Wire.Layout.{lock_request_wire, pack_lock_request-wire}
use fleetcore.Wire.RoundTrip.{IsLockRequest, make-IsLockMessage}

-- The request for the terminal with these characters, written out.
abbrev pub request_of : (now : ℕ) → Bytes → (seq : ℕ) → LockRequest
request_of now raw seq = record {
  header = record {
    magic_0 = 70;
    magic_1 = 67;
    version = 1;
    code = 16;
    len = 24;
    seq = seq;
    timestamp = now % 2 ^ 64;
    reserved = 0;
  };
  term_no = record {
    c0 = byte_at raw 0;
    c1 = byte_at raw 1;
    c2 = byte_at raw 2;
    c3 = byte_at raw 3;
  };
}

-- The requests of some presses, each a time and a terminal number, from a sequence number on.
abbrev pub requests : {Q : Type 0} → (Q → Bytes) → List (ℕ × Q) → ℕ → List LockRequest
requests to_latin1 [] seq = []
requests to_latin1 ((now, text) ∷ presses) seq =
    request_of now (to_latin1 text) seq ∷ requests to_latin1 presses ((seq + 1) % 2 ^ 16)

pub requests-IsLockRequest :
    {Q : Type 0} (to_latin1 : Q → Bytes) (presses : List (ℕ × Q)) (seq : ℕ)
    → seq < 2 ^ 16
    → All IsLockRequest (requests to_latin1 presses seq)
unfolding make_lock_request
requests-IsLockRequest to_latin1 [] seq h = tt
requests-IsLockRequest to_latin1 ((now, text) ∷ presses) seq h = (
  (make-IsLockMessage now (term_no_at (to_latin1 text)) seq 0 h).0,
  requests-IsLockRequest to_latin1 presses ((seq + 1) % 2 ^ 16) (omega arith),
)

module _ {S Q : Type 0} (qt : QtSocket S) (to_latin1 : Q → Bytes) (e : Endian) where
  logged :
      (w : MaintWorker S Q) (o : Option S) (line line' : LogLine Q)
      → w.socket ≡ o
      → line ≡ line'
      → record w { emitted = w.emitted ++ (log_line line' ∷ []) }
        ≡ record w { socket = o; emitted = w.emitted ++ (log_line line ∷ []) }
  logged w o line line' has l =
      λ i. record w { socket = has i; emitted = w.emitted ++ (log_line (sym l i) ∷ []) }

  -- The button pressed with a terminal number of four characters, on a connected socket that takes
  -- the message: the 24 bytes of the request, with the next sequence number, are written, the line
  -- in the log has that number, and the one after it is next, 0 behind 65535.
  pub send_lock_writes :
      (now : ℕ) (scratch : Bytes) (text : Q) (w : MaintWorker S Q) (s s' : S)
      → w.socket ≡ some s
      → is_connected (qt.state s) ≡ true
      → length (to_latin1 text) ≡ 4
      → length scratch ≡ 1024
      → qt.write (lock_request_wire (request_of now (to_latin1 text) w.next_seq)) s ≡ (some 24, s')
      → send_lock qt to_latin1 e now scratch text w ≡ record w {
        socket = some s';
        next_seq = (w.next_seq + 1) % 2 ^ 16;
        emitted = w.emitted ++ (log_line (lock_sent text w.next_seq) ∷ []);
      }
  unfolding send_lock make_lock_request
  send_lock_writes now scratch text w s s' has up four size takes =
      let req = make_lock_request now (term_no_at (to_latin1 text)) w.next_seq in
      let packed = pack_lock_request-wire e req scratch 1024 (omega arith) (omega (arith, size)) in
      let front = take-length-append (lock_request_wire req) (drop 24 scratch) in
      rw (has, send_lock) (simp (up, four, packed) (simp (front, takes)))

  -- Without a connection, or with a terminal number that has not four characters, nothing is written
  -- and the sequence number stays: there is one line in the log and no other change.
  pub send_lock_refused :
      (now : ℕ) (scratch : Bytes) (text : Q) (w : MaintWorker S Q) (s : S) (line : LogLine Q)
      → ((w.socket ≡ none) × (line ≡ not_connected))
        ⊎ (((w.socket ≡ some s) × (is_connected (qt.state s) ≡ false) × (line ≡ not_connected))
            ⊎ ((w.socket ≡ some s)
                × (is_connected (qt.state s) ≡ true)
                × (length (to_latin1 text) ≢ 4)
                × (line ≡ bad_number)))
      → send_lock qt to_latin1 e now scratch text w
        ≡ record w { emitted = w.emitted ++ (log_line line ∷ []) }
  unfolding send_lock
  send_lock_refused now scratch text w s line (inl (gone, l)) =
      rw (gone, send_lock) (logged w none line _ gone l)
  send_lock_refused now scratch text w s line (inr (inl (has, down, l))) =
      rw (has, send_lock) (rw (down) (logged w (some s) line _ has l))
  send_lock_refused now scratch text w s line (inr (inr (has, up, size, l))) =
      rw (has, send_lock)
        (rw (up) (rw (==_ne (length (to_latin1 text)) 4 size) (logged w (some s) line _ has l)))

  -- The slot once for each press.
  abbrev pub send_locks : Bytes → List (ℕ × Q) → MaintWorker S Q → MaintWorker S Q
  send_locks scratch [] w = w
  send_locks scratch ((now, text) ∷ presses) w =
      send_locks scratch presses (send_lock qt to_latin1 e now scratch text w)

  abbrev pub FourEach : List (ℕ × Q) → Type 0
  FourEach [] = Unit {0}
  FourEach ((now, text) ∷ presses) = (length (to_latin1 text) ≡ 4) × FourEach presses

  -- On a socket that stays connected and takes what is written, where `sent` shows the bytes written
  -- to it, presses with terminal numbers of four characters write the 24 bytes of one request each, in
  -- order, with the characters of the terminal chosen, the time of the press, and consecutive
  -- sequence numbers modulo 65536, written out in `request_of`.
  pub send_locks_consecutive :
      (sent : S → Bytes) (scratch : Bytes) (presses : List (ℕ × Q)) (w : MaintWorker S Q) (s : S)
      → ((s : S) → is_connected (qt.state s) ≡ true)
      → ((bs : Bytes) (s : S) → (qt.write bs s).0 ≡ some (length bs))
      → ((bs : Bytes) (s : S) → sent (qt.write bs s).1 ≡ sent s ++ bs)
      → w.socket ≡ some s
      → length scratch ≡ 1024
      → w.next_seq < 2 ^ 16
      → FourEach presses
      → (s' : S) × ((send_locks scratch presses w).socket ≡ some s')
        × (sent s' ≡ sent s ++ all_wires lock_request_wire (requests to_latin1 presses w.next_seq))
        × ((send_locks scratch presses w).next_seq ≡ (w.next_seq + length presses) % 2 ^ 16)
  send_locks_consecutive sent scratch [] w s up takes adds has size fits four =
      (s, has, sym (append-nil (sent s)), omega arith)
  send_locks_consecutive sent scratch ((now, text) ∷ presses) w s up takes adds has size fits
        (four, all) =
      let req = lock_request_wire (request_of now (to_latin1 text) w.next_seq) in
      let s1 = (qt.write req s).1 in
      let rest = requests to_latin1 presses ((w.next_seq + 1) % 2 ^ 16) in
      let w1 = record w {
        socket = some s1;
        next_seq = (w.next_seq + 1) % 2 ^ 16;
        emitted = w.emitted ++ (log_line (lock_sent text w.next_seq) ∷ []);
      } in
      let step =
        send_lock_writes now scratch text w s s1 has (up s) four size (λ i. (takes req s i, s1)) in
      let (s', has', bytes, seq) =
        send_locks_consecutive sent scratch presses w1 s1 up takes adds refl size (omega arith)
          all in
      (
        s',
        ap (λ (v : MaintWorker S Q). (send_locks scratch presses v).socket) step ∙ has',
        bytes
            ∙ ap (λ (bs : Bytes). bs ++ all_wires lock_request_wire rest) (adds req s)
            ∙ append_assoc (sent s) req (all_wires lock_request_wire rest),
        ap (λ (v : MaintWorker S Q). (send_locks scratch presses v).next_seq) step
            ∙ seq
            ∙ omega arith,
      )
