-- ===== src/Proxy/Calls/Accounts.antt =====
-- The account of the bytes queued, and the end of a proxied connection, through the calls of the
-- client.
use vpn_service_android.Common.{
  ℕ, ◌+◌, ◌≡◌, refl, sym, ap, ◌∙◌, List, [], ◌∷◌, Bool, true, false, arith, ◌&&◌, u32, ap₂, subst,
  All, if◌then◌else◌,
}
use vpn_service_android.Buffer.Segment.{Segment, used}
use vpn_service_android.Buffer.Segment.Laws.{IsSegment}
use vpn_service_android.Proxy.State.{
  trans, in_state, Effect, Proxy, note, react, safe_close_socket, destroy_tunnel,
}
use vpn_service_android.Proxy.Calls.{switch_event}

abbrev pub total : List Segment → ℕ
total [] = 0
total (s ∷ q) = used s + total q

-- `mBufferedSize` is the number of bytes in the two queues, modulo its width; a tunnel alive has its
-- reactor; the segments are well formed.
pub record IsProxy (p : Proxy) : Type 0 where
  pub account : p.buffered_size ≡ u32 (total p.socks5 + total p.out_queue)
  pub reactor : p.alive ≡ true → p.reactor ≡ true
  pub socks5 : All IsSegment p.socks5
  pub out_queue : All IsSegment p.out_queue
  pub decrypt_buffer : IsSegment p.decrypt_buffer

-- What a call leaves alone.
pub record Keeps (p q : Proxy) : Type 0 where
  pub state : q.state ≡ p.state
  pub buffer : q.decrypt_buffer ≡ p.decrypt_buffer
  pub alive : q.alive ≡ true → p.alive ≡ true

pub Keeps-refl : (p : Proxy) → Keeps p p
Keeps-refl p = record { state = refl; buffer = refl; alive = λ h. h }

pub Keeps-trans : {p q r : Proxy} → Keeps p q → Keeps q r → Keeps p r
Keeps-trans a b = record {
  state = b.state ∙ a.state;
  buffer = b.buffer ∙ a.buffer;
  alive = λ h. a.alive (b.alive h);
}

pub if-IsProxy : (b : Bool) {p q : Proxy} → IsProxy p → IsProxy q → IsProxy (if b then p else q)
if-IsProxy true v w = v
if-IsProxy false v w = w

pub if-IsProxy_fst {ℓ} :
    {A : Type ℓ} (b : Bool) (p q : Proxy × A)
    → IsProxy p.0
    → IsProxy q.0
    → IsProxy (if◌then◌else◌ {A = Proxy × A} b p q).0
if-IsProxy_fst true p q v w = v
if-IsProxy_fst false p q v w = w

pub if-Keeps : (b : Bool) {p q r : Proxy} → Keeps p q → Keeps p r → Keeps p (if b then q else r)
if-Keeps true v w = v
if-Keeps false v w = w

pub if-Keeps_fst {ℓ} :
    {A : Type ℓ} (b : Bool) {p : Proxy} (q r : Proxy × A)
    → Keeps p q.0
    → Keeps p r.0
    → Keeps p (if◌then◌else◌ {A = Proxy × A} b q r).0
if-Keeps_fst true q r v w = v
if-Keeps_fst false q r v w = w

pub note-IsProxy : (e : Effect) (p : Proxy) → IsProxy p → IsProxy (note e p)
unfolding note
note-IsProxy e p v = record {
  account = v.account;
  reactor = v.reactor;
  socks5 = v.socks5;
  out_queue = v.out_queue;
  decrypt_buffer = v.decrypt_buffer;
}

pub note-Keeps : (e : Effect) (p : Proxy) → Keeps p (note e p)
unfolding note
note-Keeps e p = record { state = refl; buffer = refl; alive = λ h. h }

pub react-IsProxy : (e : Effect) (p : Proxy) → IsProxy p → IsProxy (react e p)
unfolding react
react-IsProxy e p v = if-IsProxy p.reactor (note-IsProxy e p v) (note-IsProxy _ p v)

pub react-Keeps : (e : Effect) (p : Proxy) → Keeps p (react e p)
unfolding react
react-Keeps e p = if-Keeps p.reactor (note-Keeps e p) (note-Keeps _ p)

-- A destroyed tunnel is dead, in whatever state it was.
pub destroy-dead : (p : Proxy) → (destroy_tunnel p).alive ≡ false
unfolding destroy_tunnel safe_close_socket note
destroy-dead p = ground arith

pub destroy-Keeps : (p : Proxy) → Keeps p (destroy_tunnel p)
unfolding destroy_tunnel safe_close_socket note
destroy-Keeps p = record { state = ground arith; buffer = ground arith; alive = ground arith }

pub destroy-queues :
    (p : Proxy)
    → ((destroy_tunnel p).socks5 ≡ p.socks5)
      × ((destroy_tunnel p).out_queue ≡ p.out_queue)
      × ((destroy_tunnel p).buffered_size ≡ p.buffered_size)
unfolding destroy_tunnel safe_close_socket note
destroy-queues p = (ground arith, ground arith, ground arith)

pub destroy-IsProxy : (p : Proxy) → IsProxy p → IsProxy (destroy_tunnel p)
destroy-IsProxy p v =
    let q = destroy-queues p in
    record {
      account =
          q.2 ∙ v.account ∙ ap (λ n. u32 n) (ap₂ (λ a b. total a + total b) (sym q.0) (sym q.1));
      reactor = λ h. ground (arith, destroy-dead p);
      socks5 = subst (All IsSegment) (sym q.0) v.socks5;
      out_queue = subst (All IsSegment) (sym q.1) v.out_queue;
      decrypt_buffer = subst IsSegment (sym (destroy-Keeps p).buffer) v.decrypt_buffer;
    }

pub switch_event-IsProxy : (e : Effect) (p : Proxy) → IsProxy p → IsProxy (switch_event e p).0
unfolding switch_event
switch_event-IsProxy e p v =
    if-IsProxy_fst (p.alive && in_state p.state trans) _ _ (react-IsProxy e p v) v

pub switch_event-Keeps : (e : Effect) (p : Proxy) → Keeps p (switch_event e p).0
unfolding switch_event
switch_event-Keeps e p =
    if-Keeps_fst (p.alive && in_state p.state trans) _ _ (react-Keeps e p) (Keeps-refl p)
