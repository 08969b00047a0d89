-- ===== src/Reactor/Loop/Silence.antt =====
-- Events of a removed descriptor that EpollReactor finds later in the same batch.
use vpn_service_android.Common.{◌≡◌, refl, ◌∙◌, List, [], ◌∷◌, ◌++◌, Option, none, some, true}
use vpn_service_android.Reactor.{Listener, Stub, Callback, Reactor}
use vpn_service_android.Reactor.Table.Laws.{has}
use vpn_service_android.Reactor.Calls.{Call}
use vpn_service_android.Reactor.Calls.Invariant.{IsReactor, is_silent, no_listener}
use vpn_service_android.Reactor.Loop.{
  Ready, dispatch_listened, dispatch_stub, dispatch_one, dispatch_event,
}
use vpn_service_android.Reactor.Loop.Kept.{AllLive, stubs, dispatch_event-Keeps}

module _ (handlers : List Callback → List Call) where
  dispatch_one_silent :
      (e : Ready) (r : Reactor) → is_silent (r.heap e.stub) ≡ true → dispatch_one handlers e r ≡ r
  unfolding dispatch_one dispatch_stub dispatch_listened
  dispatch_one_silent e r h = by_stub (r.heap e.stub) h
    where
      by_listener :
          (l : Option Listener) → no_listener l ≡ true → dispatch_listened handlers l e r ≡ r
      by_listener none n = refl
      by_listener (some l) n = absurd cc

      by_stub : (o : Option Stub) → is_silent o ≡ true → dispatch_stub handlers o e r ≡ r
      by_stub none n = absurd cc
      by_stub (some s) n = by_listener s.listener n

  dispatch_event-append :
      (es : List Ready) (e : Ready) (r : Reactor)
      → dispatch_event handlers (es ++ e ∷ []) r
        ≡ dispatch_one handlers e (dispatch_event handlers es r)
  unfolding dispatch_event
  dispatch_event-append [] e r = refl
  dispatch_event-append (d ∷ es) e r = dispatch_event-append es e (dispatch_one handlers d r)

  -- When a stub waits for its deletion, an event reported for it changes nothing and calls no handler,
  -- wherever it stands in a batch of events for allocated stubs, whatever the handlers called before it
  -- do, and even when its descriptor is registered again.
  pub dispatch_event_silent :
      (es : List Ready) (e : Ready) (r : Reactor)
      → IsReactor r
      → AllLive r (stubs es)
      → has e.stub r.deleted ≡ true
      → dispatch_event handlers (es ++ e ∷ []) r ≡ dispatch_event handlers es r
  dispatch_event_silent es e r v h d =
      let kept = dispatch_event-Keeps handlers es r v h in
      dispatch_event-append es e r
      ∙ dispatch_one_silent e (dispatch_event handlers es r)
          (kept.valid.waits e.stub (kept.deleted e.stub d))
