-- ===== src/Reactor/Calls/Views.antt =====
-- How writing a stub of EpollReactor changes the map that its table and its stubs hold.
use mathlib.Core.Path.{fun_ext}
use vpn_service_android.Common.{ℕ, suc, ◌≡◌, List, none, some, arith, Option-cases}
use vpn_service_android.Reactor.{Stub, Reactor, Status}
use vpn_service_android.Reactor.Table.{find, insert, erase, store}
use vpn_service_android.Reactor.Table.Laws.{find-insert, find-erase}
use vpn_service_android.Reactor.Calls.Spec.{entry, Interest, put, view}
use vpn_service_android.Reactor.Calls.Invariant.{IsReactor}

-- What a call leaves, seen as the map.
abbrev pub seen : Status × Reactor → Status × Interest
seen p = (p.0, view p.1)

pub view-store :
    (r : Reactor) (a : ℕ) (s : Stub)
    → IsReactor r
    → find s.fd r.table ≡ some a
    → view (record r { heap = store r.heap a (some s) })
      ≡ put s.fd (some (entry s.events s.listener s.tag)) (view r)
unfolding store
view-store r a s v f =
    fun_ext λ j. ground (arith, Option-cases (find j r.table), v.tabled j a, v.tabled s.fd a f)

pub view-retire :
    (r : Reactor) (a : ℕ) (s : Stub) (xs : List ℕ)
    → IsReactor r
    → find s.fd r.table ≡ some a
    → view (record r { heap = store r.heap a (some s); deleted = xs; table = erase s.fd r.table })
      ≡ put s.fd none (view r)
unfolding store
view-retire r a s xs v f = fun_ext λ j. ground (
  arith,
  Option-cases (find j r.table),
  v.tabled j a,
  v.tabled s.fd a f,
  find-erase s.fd j r.table v.ordered,
)

pub view-grow :
    (r : Reactor) (s : Stub)
    → IsReactor r
    → find s.fd r.table ≡ none
    → view (record r {
      heap = store r.heap r.fresh (some s);
      fresh = suc r.fresh;
      table = insert s.fd r.fresh r.table;
    })
      ≡ put s.fd (some (entry s.events s.listener s.tag)) (view r)
unfolding store
view-grow r s v f = fun_ext λ j. ground (
  arith,
  Option-cases (find j r.table),
  v.tabled j r.fresh,
  v.recent r.fresh,
  find-insert s.fd r.fresh j r.table f,
)
