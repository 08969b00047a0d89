-- ===== src/Proxy/Events/Invariant.antt =====
-- The invariants of a proxied connection at the events of the socket.
use vpn_service_android.Common.{ℕ, ◌≡◌, subst, List, Option, some}
use vpn_service_android.Proxy.State.{Proxy}
use vpn_service_android.Proxy.Calls.Accounts.{IsProxy}
use vpn_service_android.Proxy.Handshake.{Config, Client}
use vpn_service_android.Proxy.Handshake.Moves.{Reach, Ended}
use vpn_service_android.Proxy.Events.{Reading, on_readable, on_writable}
use vpn_service_android.Proxy.Events.Accounts.{HandlesIf, on_readable-Handles}
use vpn_service_android.Proxy.Events.Sending.{on_writable-Handles, TakesGiven}

-- Whatever the proxy sends, and whatever the client does in its handlers, a readable event that
-- leaves `q` keeps the count of the bytes queued, and a tunnel that has ended dead, and moves the
-- handshake only along its steps.
pub on_readable_lem :
    (rand : ℕ → ℕ → ℕ → ℕ) (client : Client) (config : Config) (r : Reading) (p q : Proxy)
    → on_readable rand client config r p ≡ some q
    → IsProxy p
    → Ended p
    → IsProxy q × Ended q × Reach p.state q.state
on_readable_lem rand client config r p q e v dead =
    let h = subst (HandlesIf p) e (on_readable-Handles rand client config r p) in
    (h.accounts v, h.ended dead, h.reach)

-- When `send` takes no more than it is given, a writable event, whatever the client does in its
-- handlers, keeps the count of the bytes queued, and a tunnel that has ended dead, and moves the
-- handshake only along its steps.
pub on_writable_lem :
    (rand : ℕ → ℕ → ℕ → ℕ) (client : Client) (config : Config) (replies : ℕ → List ℕ → Option ℕ)
    (p : Proxy)
    → TakesGiven replies
    → IsProxy p
    → Ended p
    → IsProxy (on_writable rand client config replies p)
      × Ended (on_writable rand client config replies p)
      × Reach p.state (on_writable rand client config replies p).state
on_writable_lem rand client config replies p takes v dead =
    let h = on_writable-Handles rand client config replies p takes v in
    (h.accounts v, h.ended dead, h.reach)
