-- ===== src/TcpServer/Poll.antt =====
-- The polls of `TcpServer` when nothing happens, and when bytes have come.
use fleetcore.Prelude.{ℕ, ◌≡◌, false, true, none, some, [], ◌∷◌, ◌⊎◌, inl, inr, arith}
use fleetcore.Bytes.{Bytes}
use fleetcore.TcpServer.{
  TcpServer, RecvAnswer, bytes, broken, would_block, got, nothing, gone, poll_accept, poll_read,
  drop_client, has_client,
}

pub poll_accept-none : (t : TcpServer) → poll_accept none t ≡ (false, t, none)
unfolding poll_accept
poll_accept-none t = ground arith

pub poll_read-bytes :
    (b : ℕ) (chunk : Bytes) (t : TcpServer) (fd : ℕ)
    → t.client_fd ≡ some fd
    → poll_read (bytes (b ∷ chunk)) t ≡ (got (b ∷ chunk), t)
unfolding poll_read
poll_read-bytes b chunk t fd c = ground arith

pub has_client-none : (t : TcpServer) → t.client_fd ≡ none → has_client t ≡ false
unfolding has_client
has_client-none t c = ground arith

pub has_client-some : (t : TcpServer) (fd : ℕ) → t.client_fd ≡ some fd → has_client t ≡ true
unfolding has_client
has_client-some t fd c = ground arith

pub poll_accept-some :
    (t : TcpServer) (l fd : ℕ)
    → t.listen_fd ≡ some l
    → poll_accept (some fd) t
      ≡ (true, record { listen_fd = some l; client_fd = some fd }, t.client_fd)
unfolding poll_accept
poll_accept-some t l fd c = ground arith

pub poll_read-gone :
    (answer : RecvAnswer) (t : TcpServer) (fd : ℕ)
    → t.client_fd ≡ some fd
    → (answer ≡ bytes []) ⊎ (answer ≡ broken)
    → poll_read answer t ≡ (gone, drop_client t)
unfolding poll_read
poll_read-gone answer t fd c (inl e) = ground arith
poll_read-gone answer t fd c (inr e) = ground arith

pub poll_read-nothing : (t : TcpServer) → poll_read would_block t ≡ (nothing, t)
unfolding poll_read
poll_read-nothing t = ground arith

pub poll_read-unconnected :
    (answer : RecvAnswer) (t : TcpServer) → t.client_fd ≡ none → poll_read answer t ≡ (nothing, t)
unfolding poll_read
poll_read-unconnected answer t c = ground arith
