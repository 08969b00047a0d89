-- ===== src/Router/Sessions/Unique.antt =====
-- No two live sessions of the router have the same addresses and ports.
use vpn_service_android.Common.{
  ℕ, ◌≡◌, refl, ap, subst, sym, ◌∙◌, List, [], ◌∷◌, ◌++◌, Option, none, some, Bool, true, false,
  ◌==◌, ◌&&◌, not, if◌then◌else◌, All, arith, if_both,
}
use vpn_service_android.Router.Sessions.{
  Key, same_key, SessionOps, Place, step_over, is_of, find_in, find_session, build_session,
  route_new, route_found, route, clean_dead_sessions,
}

still_apart :
    (x c d m : Bool)
    → (c ≡ true → d ≡ true)
    → (not x && (not c && m)) ≡ false
    → (not x && (not d && m)) ≡ false
still_apart x c d m h e = ground arith

still_closed : (c d m : Bool) → (c ≡ true → d ≡ true) → (not c && m) ≡ false → (not d && m) ≡ false
still_closed c d m h e = ground arith

apart_sym :
    (c d : Bool) (j k : Key)
    → (not c && same_key j k) ≡ false
    → (not c && (not d && same_key k j)) ≡ false
apart_sym c d j k e = ground arith

module _ {S P : Type 0} (ops : SessionOps S P) where
  -- A live session with the key of `k`.
  abbrev pub clashes : Key → S → Bool
  clashes k s = not (ops.has_closed s) && same_key (ops.key s) k

  -- `s` clashes with none of the list, if it is live.
  abbrev pub Apart : S → List S → Type 0
  Apart s ss = All (λ t. (not (ops.has_closed s) && clashes (ops.key s) t) ≡ false) ss

  abbrev pub AreDistinct : List S → Type 0
  AreDistinct [] = Unit
  AreDistinct (s ∷ ss) = Apart s ss × AreDistinct ss

  abbrev IsFree : Key → List S → Type 0
  IsFree k ss = All (λ t. clashes k t ≡ false) ss

  missed :
      (s : S) (b : Bool) (x : Place ops) (o : Option (Place ops))
      → (if b then some x else step_over ops s o) ≡ none
      → (b ≡ false) × (o ≡ none)
  unfolding step_over
  missed s true x o e = absurd cc
  missed s false x none e = (refl, refl)
  missed s false x (some p) e = absurd cc

  find_in-none : (k : Key) (ss : List S) → find_in ops k ss ≡ none → IsFree k ss
  unfolding find_in is_of
  find_in-none k [] e = tt
  find_in-none k (s ∷ ss) e =
      let (here, later) =
        missed s (is_of ops k s) (record { before = []; session = s; after = ss })
          (find_in ops k ss) e in
      (here, find_in-none k ss later)

  -- The split of a list at a place.
  abbrev Rejoined : Option (Place ops) → List S → Key → Type 0
  Rejoined none ss k = Unit
  Rejoined (some p) ss k = (ss ≡ p.before ++ p.session ∷ p.after) × (is_of ops k p.session ≡ true)

  find_in-some : (k : Key) (ss : List S) → Rejoined (find_in ops k ss) ss k
  unfolding find_in
  find_in-some k [] = tt
  find_in-some k (s ∷ ss) = here_or (is_of ops k s) (find_in ops k ss) refl (find_in-some k ss)
    where
      here_or :
          (b : Bool) (o : Option (Place ops))
          → is_of ops k s ≡ b
          → Rejoined o ss k
          → Rejoined
              (if b
                then some (record { before = []; session = s; after = ss })
                else step_over ops s o)
              (s ∷ ss)
              k
      here_or true o e r = (refl, e)
      here_or false none e r = tt
      here_or false (some p) e r = (ap (λ l. s ∷ l) r.0, r.1)

  -- A session changed in its place: its key stays, and it is not live again when it was closed.
  pub record IsLater (s t : S) : Type 0 where
    pub same : ops.key t ≡ ops.key s
    pub closed : ops.has_closed s ≡ true → ops.has_closed t ≡ true

  clash_later :
      (x s t : S)
      → IsLater s t
      → (not (ops.has_closed x) && clashes (ops.key x) s) ≡ false
      → (not (ops.has_closed x) && clashes (ops.key x) t) ≡ false
  clash_later x s t l e =
      subst
        (λ k.
          (not (ops.has_closed x) && (not (ops.has_closed t) && same_key k (ops.key x))) ≡ false)
        (sym l.same)
        (still_apart (ops.has_closed x) (ops.has_closed s) (ops.has_closed t)
          (same_key (ops.key s) (ops.key x)) l.closed e)

  later-Apart : (s t : S) (ss : List S) → IsLater s t → Apart s ss → Apart t ss
  later-Apart s t [] l a = tt
  later-Apart s t (x ∷ ss) l a = (
    subst
        (λ k.
          (not (ops.has_closed t) && (not (ops.has_closed x) && same_key (ops.key x) k)) ≡ false)
        (sym l.same) (still_closed (ops.has_closed s) (ops.has_closed t) _ l.closed a.0),
    later-Apart s t ss l a.1,
  )

  change-Apart :
      (x s t : S) (before after : List S)
      → IsLater s t
      → Apart x (before ++ s ∷ after)
      → Apart x (before ++ t ∷ after)
  change-Apart x s t [] after l a = (clash_later x s t l a.0, a.1)
  change-Apart x s t (b ∷ before) after l a = (a.0, change-Apart x s t before after l a.1)

  change-AreDistinct :
      (s t : S) (before after : List S)
      → IsLater s t
      → AreDistinct (before ++ s ∷ after)
      → AreDistinct (before ++ t ∷ after)
  change-AreDistinct s t [] after l d = (later-Apart s t after l d.0, d.1)
  change-AreDistinct s t (b ∷ before) after l d =
      (change-Apart b s t before after l d.0, change-AreDistinct s t before after l d.1)

  Apart-append :
      (x t : S) (ss : List S) → Apart x ss → clashes (ops.key t) x ≡ false → Apart x (ss ++ t ∷ [])
  Apart-append x t [] a e =
      (apart_sym (ops.has_closed x) (ops.has_closed t) (ops.key x) (ops.key t) e, tt)
  Apart-append x t (s ∷ ss) a e = (a.0, Apart-append x t ss a.1 e)

  push-AreDistinct :
      (t : S) (ss : List S) → IsFree (ops.key t) ss → AreDistinct ss → AreDistinct (ss ++ t ∷ [])
  push-AreDistinct t [] f d = (tt, tt)
  push-AreDistinct t (s ∷ ss) f d = (Apart-append s t ss d.0 f.0, push-AreDistinct t ss f.1 d.1)

  clean-Apart : (x : S) (ss : List S) → Apart x ss → Apart x (clean_dead_sessions ops ss).1
  unfolding clean_dead_sessions
  clean-Apart x [] a = tt
  clean-Apart x (s ∷ ss) a =
      let rest = clean-Apart x ss a.1 in
      if_both (λ (r : ℕ × List S). Apart x r.1) (ops.has_closed s) rest (a.0, rest)

  clean-AreDistinct : (ss : List S) → AreDistinct ss → AreDistinct (clean_dead_sessions ops ss).1
  unfolding clean_dead_sessions
  clean-AreDistinct [] d = tt
  clean-AreDistinct (s ∷ ss) d =
      let rest = clean-AreDistinct ss d.1 in
      if_both (λ (r : ℕ × List S). AreDistinct r.1) (ops.has_closed s) rest
        (clean-Apart s ss d.0, rest)

  -- What happens to the list: a packet is routed, a session found there is changed by an event of its
  -- own, or the closed ones are released.
  pub data Step : List S → List S → Type 0 where
    routed : (k : Key) (p : P) (ss : List S) → Step ss (route ops k p ss).1
    changed :
        (s t : S) (before after : List S)
        → IsLater s t
        → Step (before ++ s ∷ after) (before ++ t ∷ after)
    cleaned : (ss : List S) → Step ss (clean_dead_sessions ops ss).1

  new-AreDistinct :
      (k : Key) (p : P) (o : Option S) (ss : List S)
      → ((s : S) → o ≡ some s → ops.key s ≡ k)
      → IsFree k ss
      → AreDistinct ss
      → AreDistinct (route_new ops k p o ss).1
  unfolding route_new
  new-AreDistinct k p none ss e f d = d
  new-AreDistinct k p (some s) ss e f d =
      let t = (ops.accept k p s).1 in
      let same : ops.key t ≡ k = ops.key-accept k p s ∙ e s refl in
      push-AreDistinct t ss (subst (λ j. IsFree j ss) (sym same) f) d

  found-AreDistinct :
      (k : Key) (p : P) (o : Option (Place ops)) (ss : List S)
      → Rejoined o ss k
      → (o ≡ none → IsFree k ss)
      → AreDistinct ss
      → AreDistinct (route_found ops k p o ss).1
  unfolding route_found build_session is_of
  found-AreDistinct k p none ss r f d =
      new-AreDistinct k p (build_session ops k p) ss (λ s e. key_of_built (k.ip_ver == 4) s e)
        (f refl) d
    where
      key_of_built :
          (b : Bool) (s : S) → (if b then ops.init k p else none) ≡ some s → ops.key s ≡ k
      key_of_built true s e = ops.key-init k p s e
      key_of_built false s e = absurd cc
  found-AreDistinct k p (some at) ss r f d =
      let later : IsLater at.session (ops.accept k p at.session).1 = record {
        same = ops.key-accept k p at.session;
        closed = λ c. absurd (ground (arith, live (ops.has_closed at.session) _ r.1, c));
      } in
      change-AreDistinct at.session (ops.accept k p at.session).1 at.before at.after later
        (subst AreDistinct r.0 d)
    where
      live : (c m : Bool) → (not c && m) ≡ true → c ≡ false
      live c m e = ground arith

  route-AreDistinct :
      (k : Key) (p : P) (ss : List S) → AreDistinct ss → AreDistinct (route ops k p ss).1
  unfolding route find_session route_found build_session route_new
  route-AreDistinct k p ss d = by_version (k.ip_ver == 4) refl
    where
      by_version :
          (b : Bool)
          → (k.ip_ver == 4) ≡ b
          → AreDistinct (route_found ops k p (if b then find_in ops k ss else none) ss).1
      by_version true e =
          found-AreDistinct k p (find_in ops k ss) ss (find_in-some k ss) (find_in-none k ss) d
      by_version false e =
          subst (λ b. AreDistinct (route_new ops k p (if b then ops.init k p else none) ss).1)
            (sym e) d

  Step-AreDistinct : (ss ts : List S) → Step ss ts → AreDistinct ss → AreDistinct ts
  Step-AreDistinct ss ts (routed k p us) d = route-AreDistinct k p us d
  Step-AreDistinct ss ts (changed s t before after l) d = change-AreDistinct s t before after l d
  Step-AreDistinct ss ts (cleaned us) d = clean-AreDistinct us d

  -- The lists that the router comes to, from none.
  pub data Reached : List S → Type 0 where
    start : Reached []
    then_step : (ss ts : List S) → Reached ss → Step ss ts → Reached ts

  -- In every list of sessions that the router comes to by routing packets, by events of single sessions
  -- that keep the key and do not bring a closed one back, and by purges, no two sessions that are both
  -- live have the same version, addresses and ports.
  pub reached-AreDistinct : (ss : List S) → Reached ss → AreDistinct ss
  reached-AreDistinct ss start = tt
  reached-AreDistinct ss (then_step us ts r s) = Step-AreDistinct us ts s (reached-AreDistinct us r)
