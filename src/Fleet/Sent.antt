-- ===== src/Fleet/Sent.antt =====
-- What the handlers of gateway and termd hand to their sockets, in all cases.
use fleetcore.Prelude.{
  ◌<◌, ◌^◌, ◌≡◌, refl, sym, ap, ◌∙◌, subst, inl, inr, Bool, true, false, Option, none, some, List,
  [], ◌++◌, append-nil, arith, length, drop, take-length-append, if◌then◌else◌, ◌>>=◌, Bool-cases,
  Option-cases,
}
use fleetcore.Bytes.{Bytes, Endian}
use fleetcore.Gateway.{Gateway, Sockets}
use fleetcore.Gateway as Gate
use fleetcore.IpcMessage.{
  IpcLockRequest, IpcLockResponse, ipc_lock_request_object, ipc_lock_response_object,
  ipc_lock_request_of, ipc_lock_response_of, ipc_lock_request_of-object,
  ipc_lock_response_of-object,
}
use fleetcore.Process.{Severity, message, Ipc}
use fleetcore.Process.Kept.{KeepsIdle}
use fleetcore.Proto.{IsHeader}
use fleetcore.TcpServer.{TcpServer, SendAnswer, send, has_client}
use fleetcore.TcpServer.Send.{Outcome, send-Outcome}
use fleetcore.Termd.{Termd, Env, deliver, on_lock_request}
use fleetcore.Termd.Uplink.{acknowledged, request_acknowledged}
use fleetcore.Wire.Layout.{
  lock_request_wire, lock_response_wire, pack_lock_request-wire, pack_lock_response-wire,
}

abbrev pub Begins : Bytes → Bytes → Type 0
Begins part whole = (rest : Bytes) × (whole ≡ part ++ rest)

-- What has been sent has grown by a beginning of one message.
abbrev pub Extends : Bytes → Bytes → Bytes → Type 0
Extends wire before after = (out : Bytes) × Begins out wire × (after ≡ before ++ out)

Extends-same : (wire sent : Bytes) → Extends wire sent sent
Extends-same wire sent = ([], (wire, refl), sym (append-nil sent))

send-Begins :
    (answers : List SendAnswer) (msg : Bytes) (t t' : TcpServer) (ok : Bool) (out : Bytes)
    → send answers msg t ≡ some (ok, t', out)
    → Begins out msg
send-Begins answers msg t t' ok out e = elim (Option-cases t.client_fd) [
  | inl c ↦ (msg, ap (λ (b : Bytes). b ++ msg) (unsent c e))
  | inr (fd, c) ↦ from ok (send-Outcome answers msg t t' fd ok out c e)
]
  where
    unsent : t.client_fd ≡ none → send answers msg t ≡ some (ok, t', out) → [] ≡ out
    unsent c e = unfold send in ground arith

    from : (ok : Bool) → Outcome t msg (ok, t', out) → Begins out msg
    from true (same, kept) = ([], sym same ∙ sym (append-nil out))
    from false (rest, split, left, kept) = (rest, split)

module _ {K : Type 0} (e : Endian) where
  abbrev after_send : Option (Bool × TcpServer × Bytes) → Termd K → Option (Termd K)
  after_send o d = do (ok, t, taken) ← o; some (record d { tcp = t; sent = d.sent ++ taken })

  deliver-eq :
      (scratch : Bytes) (sends : List SendAnswer) (msg : Bytes) (m : IpcLockRequest) (d : Termd K)
      → ipc_lock_request_of e msg ≡ m
      → length scratch ≡ 1024
      → deliver e scratch sends msg d ≡ (
          if has_client d.tcp
          then after_send (send sends (lock_request_wire m.msg) d.tcp) d
          else some d)
  unfolding deliver
  deliver-eq scratch sends msg m d read size =
      let packed =
        pack_lock_request-wire e m.msg scratch 1024 (omega arith) (omega (arith, size)) in
      let front = take-length-append (lock_request_wire m.msg) (drop 24 scratch) in
      elim (Bool-cases (has_client d.tcp)) [
        | inl up ↦ simp (read, up, packed) (simp front)
        | inr down ↦ simp (read, down)
      ]

  -- A delivery adds a beginning of the request to what has been sent.
  abbrev Delivered : IpcLockRequest → Termd K → Termd K → Type 0
  Delivered m d d' = Extends (lock_request_wire m.msg) d.sent d'.sent × (d'.queues ≡ d.queues)

  after_send-Delivered :
      (sends : List SendAnswer) (m : IpcLockRequest) (d : Termd K)
      → KeepsIdle (Delivered m d) (after_send (send sends (lock_request_wire m.msg) d.tcp) d)
  after_send-Delivered sends m d =
      elim (Option-cases (send sends (lock_request_wire m.msg) d.tcp)) [
        | inl stuck ↦ rw stuck tt
        | inr ((ok, t, out), is) ↦
            rw is ((out, send-Begins sends (lock_request_wire m.msg) d.tcp t ok out is, refl), refl)
      ]

  deliver-Delivered :
      (scratch : Bytes) (sends : List SendAnswer) (msg : Bytes) (m : IpcLockRequest) (d : Termd K)
      → ipc_lock_request_of e msg ≡ m
      → length scratch ≡ 1024
      → KeepsIdle (Delivered m d) (deliver e scratch sends msg d)
  deliver-Delivered scratch sends msg m d read size =
      rw (deliver-eq scratch sends msg m d read size) (elim (Bool-cases (has_client d.tcp)) [
        | inl up ↦ rw up (after_send-Delivered sends m d)
        | inr down ↦ rw down (Extends-same (lock_request_wire m.msg) d.sent, refl)
      ])

  module _ (ipc : Ipc K) where
    never_returns :
        (scratch : Bytes) (env : Env) (msg : Bytes) (d : Termd K)
        → length msg ≡ 32
        → deliver e scratch env.sends msg d ≡ none
        → on_lock_request e ipc scratch env msg d ≡ none
    unfolding on_lock_request
    never_returns scratch env msg d long stuck = simp (long, stuck)

    -- However its socket answers, a termd that returns from a request has sent a beginning of it at
    -- most, and has acknowledged it.
    pub on_lock_request-sent :
        (scratch : Bytes) (env : Env) (m : IpcLockRequest) (d d' : Termd K) (sev : Severity)
        → IsHeader m.msg.header
        → m.ipc.dest_index < 2 ^ 32
        → length scratch ≡ 1024
        → on_lock_request e ipc scratch env (ipc_lock_request_object e m) d ≡ some (sev, d')
        → Extends (lock_request_wire m.msg) d.sent d'.sent
          × (d'.queues ≡ acknowledged e ipc env.now m.msg d.queues)
    on_lock_request-sent scratch env m d d' sev v fits size returns =
        let (read, long) = ipc_lock_request_of-object e m v fits in
        elim (Option-cases (deliver e scratch env.sends (ipc_lock_request_object e m) d)) [
          | inl stuck ↦ absurd (cc (never_returns scratch env _ d long stuck))
          | inr (d1, done) ↦
              let (grown, kept) =
                subst (KeepsIdle (Delivered m d)) done
                  (deliver-Delivered scratch env.sends _ m d read size) in
              let is : d' ≡ record d1 { queues = acknowledged e ipc env.now m.msg d1.queues } =
                cc (request_acknowledged e ipc scratch env _ m d d1 read long done) in
              (
                subst (λ (t : Termd K). Extends (lock_request_wire m.msg) d.sent t.sent) (sym is)
                    grown,
                ap (λ (t : Termd K). t.queues) is ∙ ap (acknowledged e ipc env.now m.msg) kept,
              )
        ]

module _ {K : Type 0} (e : Endian) (ipc : Ipc K) where
  abbrev after_reply : Option (Bool × TcpServer × Bytes) → Gateway K → Option (Severity × Gateway K)
  after_reply o g = do
    (ok, t, taken) ← o
    some (message, record g { tcp = t; sent = g.sent ++ taken })

  reply-eq :
      (scratch : Bytes) (env : Sockets) (msg : Bytes) (m : IpcLockResponse) (g : Gateway K)
      → ipc_lock_response_of e msg ≡ m
      → length msg ≡ 36
      → length scratch ≡ 1024
      → Gate.on_lock_response e ipc scratch env msg g ≡ (
          if has_client g.tcp
          then after_reply (send env.sends (lock_response_wire m.msg) g.tcp) g
          else some (message, g))
  unfolding Gate.on_lock_response
  reply-eq scratch env msg m g read long size =
      let packed =
        pack_lock_response-wire e m.msg scratch 1024 (omega arith) (omega (arith, size)) in
      let front = take-length-append (lock_response_wire m.msg) (drop 28 scratch) in
      elim (Bool-cases (has_client g.tcp)) [
        | inl up ↦ simp (read, long, up, packed) (simp front)
        | inr down ↦ simp (read, long, down)
      ]

  -- However its socket answers, gateway sends a beginning of a response at most, and neither the
  -- queues nor the bytes that it has read change.
  abbrev pub Replied : IpcLockResponse → Gateway K → Option (Severity × Gateway K) → Type 0
  Replied m g none = Unit {0}
  Replied m g (some (sev, g')) =
      Extends (lock_response_wire m.msg) g.sent g'.sent × (g'.queues ≡ g.queues) × (g'.rx ≡ g.rx)

  after_reply-Replied :
      (sends : List SendAnswer) (m : IpcLockResponse) (g : Gateway K)
      → Replied m g (after_reply (send sends (lock_response_wire m.msg) g.tcp) g)
  after_reply-Replied sends m g =
      elim (Option-cases (send sends (lock_response_wire m.msg) g.tcp)) [
        | inl stuck ↦ rw stuck tt
        | inr ((ok, t, out), is) ↦
            let begins = send-Begins sends (lock_response_wire m.msg) g.tcp t ok out is in
            rw is ((out, begins, refl), refl, refl)
      ]

  pub on_lock_response-sent :
      (scratch : Bytes) (env : Sockets) (m : IpcLockResponse) (g : Gateway K)
      → IsHeader m.msg.header
      → m.ipc.dest_index < 2 ^ 32
      → length scratch ≡ 1024
      → Replied m g (Gate.on_lock_response e ipc scratch env (ipc_lock_response_object e m) g)
  on_lock_response-sent scratch env m g v fits size =
      let (read, long) = ipc_lock_response_of-object e m v fits in
      rw (reply-eq scratch env _ m g read long size) (elim (Bool-cases (has_client g.tcp)) [
        | inl up ↦ rw up (after_reply-Replied env.sends m g)
        | inr down ↦ rw down (Extends-same (lock_response_wire m.msg) g.sent, refl, refl)
      ])
