-- ===== src/TcpServer/Send.antt =====
-- `TcpServer::send`: how much of a message leaves, and what becomes of the client.
use fleetcore.Prelude.{
  ℕ, zero, suc, ◌+◌, ◌≤◌, ◌<◌, ◌≡◌, ◌≢◌, inl, inr, refl, sym, ap, ◌∙◌, Bool, true, false, Option,
  none, some, List, [], ◌∷◌, ◌++◌, append_assoc, arith, length, length-drop, take, drop, replicate,
  ltb, Bool-cases, lt→ltb, subst, ◌>>=◌,
}
use fleetcore.Bytes.{Bytes}
use fleetcore.TcpServer.{
  TcpServer, SendAnswer, took, eintr, again, failed, drop_client, send_loop, send,
}

pub take-drop : (n : ℕ) (xs : Bytes) → take n xs ++ drop n xs ≡ xs
take-drop zero xs = refl
take-drop (suc n) [] = refl
take-drop (suc n) (x ∷ xs) = ap (◌∷◌ x) (take-drop n xs)

-- What has left is a beginning of the message: all of it on success; on failure something is
-- missing and the client is dropped.
abbrev pub Outcome : TcpServer → Bytes → Bool × TcpServer × Bytes → Type 0
Outcome t msg (true, t', out) = (out ≡ msg) × (t' ≡ t)
Outcome t msg (false, t', out) =
    (rest : Bytes) × (msg ≡ out ++ rest) × (rest ≢ []) × (t' ≡ drop_client t)

cons-ne-nil : (b : ℕ) (bs : Bytes) → b ∷ bs ≢ []
cons-ne-nil b bs e = cc

-- The loop goes on with what is left after `n` bytes.
Outcome-took :
    (t : TcpServer) (n : ℕ) (msg : Bytes) (ok : Bool) (t' : TcpServer) (out : Bytes)
    → Outcome t (drop n msg) (ok, t', out)
    → Outcome t msg (ok, t', take n msg ++ out)
Outcome-took t n msg true t' out (e, same) = (ap (◌++◌ (take n msg)) e ∙ take-drop n msg, same)
Outcome-took t n msg false t' out (rest, e, ne, gone) = (
  rest,
  sym (take-drop n msg) ∙ ap (◌++◌ (take n msg)) e ∙ sym (append_assoc (take n msg) out rest),
  ne,
  gone,
)

abbrev Ends : TcpServer → Bytes → Option (Bool × TcpServer × Bytes) → Type 0
Ends t msg none = Unit {0}
Ends t msg (some r) = Outcome t msg r

abbrev sent_before : Bytes → Option (Bool × TcpServer × Bytes) → Option (Bool × TcpServer × Bytes)
sent_before front r = do (ok, t', out) ← r; some (ok, t', front ++ out)

Ends-took :
    (t : TcpServer) (n : ℕ) (msg : Bytes) (r : Option (Bool × TcpServer × Bytes))
    → Ends t (drop n msg) r
    → Ends t msg (sent_before (take n msg) r)
Ends-took t n msg none h = tt
Ends-took t n msg (some (ok, t', out)) h = Outcome-took t n msg ok t' out h

send_loop-Ends :
    (answers : List SendAnswer) (msg : Bytes) (t : TcpServer) → Ends t msg (send_loop answers msg t)
unfolding send_loop
send_loop-Ends answers [] t = (refl, refl)
send_loop-Ends [] (b ∷ rest) t = tt
send_loop-Ends (eintr ∷ answers) (b ∷ rest) t = send_loop-Ends answers (b ∷ rest) t
send_loop-Ends (again ∷ answers) (b ∷ rest) t = send_loop-Ends answers (b ∷ rest) t
send_loop-Ends (failed ∷ answers) (b ∷ rest) t = (b ∷ rest, refl, cons-ne-nil b rest, refl)
send_loop-Ends (took n ∷ answers) (b ∷ rest) t = elim (Bool-cases (ltb 0 n)) [
  | inl more ↦ rw more (Ends-took t n (b ∷ rest) _ (send_loop-Ends answers (drop n (b ∷ rest)) t))
  | inr none_taken ↦ rw none_taken (b ∷ rest, refl, cons-ne-nil b rest, refl)
]

send-connected :
    (answers : List SendAnswer) (msg : Bytes) (t : TcpServer) (fd : ℕ)
    → t.client_fd ≡ some fd
    → send answers msg t ≡ send_loop answers msg t
unfolding send
send-connected answers msg t fd c = ground arith

-- If `send` returns on a connected server, then either it returns true, the kernel took exactly the
-- bytes of the message and the client stays, or it returns false, some bytes at the end of the
-- message were not taken, and the client is dropped.
pub send-Outcome :
    (answers : List SendAnswer) (msg : Bytes) (t t' : TcpServer) (fd : ℕ) (ok : Bool) (out : Bytes)
    → t.client_fd ≡ some fd
    → send answers msg t ≡ some (ok, t', out)
    → Outcome t msg (ok, t', out)
send-Outcome answers msg t t' fd ok out c e =
    subst (Ends t msg) (sym (send-connected answers msg t fd c) ∙ e) (send_loop-Ends answers msg t)

-- The bytes that the kernel is ready to take, where no call fails.
abbrev pub Willing : List SendAnswer → Type 0
Willing [] = Unit {0}
Willing (took n ∷ answers) = (0 < n) × Willing answers
Willing (failed ∷ answers) = ⊥
Willing (_ ∷ answers) = Willing answers

abbrev pub taken : List SendAnswer → ℕ
taken [] = 0
taken (took n ∷ answers) = n + taken answers
taken (_ ∷ answers) = taken answers

send_loop-Willing :
    (answers : List SendAnswer) (msg : Bytes) (t : TcpServer)
    → Willing answers
    → length msg ≤ taken answers
    → send_loop answers msg t ≡ some (true, t, msg)
unfolding send_loop
send_loop-Willing answers [] t w h = refl
send_loop-Willing [] (b ∷ rest) t w h = absurd (omega arith)
send_loop-Willing (eintr ∷ answers) (b ∷ rest) t w h = send_loop-Willing answers (b ∷ rest) t w h
send_loop-Willing (again ∷ answers) (b ∷ rest) t w h = send_loop-Willing answers (b ∷ rest) t w h
send_loop-Willing (failed ∷ answers) (b ∷ rest) t w h = absurd w
send_loop-Willing (took n ∷ answers) (b ∷ rest) t (pos, w) h = rw (lt→ltb 0 n pos) (
    rw (send_loop-Willing answers (drop n (b ∷ rest)) t w (omega (arith, length-drop n (b ∷ rest))))
      (rw (take-drop n (b ∷ rest))))

-- On a connected server, `send` returns true with the whole message sent as soon as the kernel,
-- call by call and with no call failing, has been ready to take as many bytes as the message has,
-- however often it was interrupted or told to try again.
pub send_total :
    (answers : List SendAnswer) (msg : Bytes) (t : TcpServer) (fd : ℕ)
    → t.client_fd ≡ some fd
    → Willing answers
    → length msg ≤ taken answers
    → send answers msg t ≡ some (true, t, msg)
send_total answers msg t fd c w h =
    send-connected answers msg t fd c ∙ send_loop-Willing answers msg t w h

send_loop-again :
    (n b : ℕ) (rest : Bytes) (t : TcpServer) → send_loop (replicate n again) (b ∷ rest) t ≡ none
unfolding send_loop
send_loop-again zero b rest t = refl
send_loop-again (suc n) b rest t = send_loop-again n b rest t

-- On a connected server, with a byte to send, no number of EAGAIN ends the loop of `send`.
pub send_spins :
    (n : ℕ) (b : ℕ) (rest : Bytes) (t : TcpServer) (fd : ℕ)
    → t.client_fd ≡ some fd
    → send (replicate n again) (b ∷ rest) t ≡ none
send_spins n b rest t fd c =
    send-connected (replicate n again) (b ∷ rest) t fd c ∙ send_loop-again n b rest t
