-- ===== src/Router/Writing/Order.antt =====
-- The device gets the bytes of the packages in order, and none of an aborted package.
use vpn_service_android.Common.{
  ℕ, ◌≤◌, ◌≡◌, refl, sym, ap, ap₂, ◌∙◌, List, [], ◌∷◌, ◌++◌, append_assoc, Option, none, some, Bool,
  true, false, leb, if◌then◌else◌, if_both, take, drop, take-append-drop, take_all, leb→le, subst,
  min, All, arith,
}
use vpn_service_android.Buffer.Segment.{Segment, consume, used, contents, resume}
use vpn_service_android.Buffer.Segment.Laws.{
  IsSegment, consume-IsSegment, length-contents, contents-consume, used-consume,
}
use vpn_service_android.Router.Writing.{
  Package, Outlet, hand_back, skip_aborted, Written, wrote, write_front, write_packages,
  on_writable,
}

-- The bytes of the packages that are not aborted.
abbrev pub live_bytes : List Package → List ℕ
live_bytes [] = []
live_bytes (p ∷ q) = if p.abort then live_bytes q else contents p.segment ++ live_bytes q

abbrev pub ArePackages : List Package → Type 0
ArePackages = All (λ (p : Package). IsSegment p.segment)

-- The first package is not aborted.
abbrev Starts : List Package → Type 0
Starts [] = Unit
Starts (p ∷ q) = p.abort ≡ false

skip_aborted_lem :
    (q : List Package) (o : Outlet)
    → ArePackages q
    → (live_bytes (skip_aborted o q).packages ≡ live_bytes q)
      × ArePackages (skip_aborted o q).packages
      × Starts (skip_aborted o q).packages
unfolding skip_aborted
skip_aborted_lem [] o v = (refl, tt, tt)
skip_aborted_lem (p ∷ q) o v = by_abort p.abort refl (skip_aborted_lem q (hand_back p o) v.1)
  where
    skipped : Outlet
    skipped = skip_aborted (hand_back p o) q

    by_abort :
        (b : Bool)
        → p.abort ≡ b
        → (live_bytes skipped.packages ≡ live_bytes q)
          × ArePackages skipped.packages
          × Starts skipped.packages
        → (live_bytes (if b then skipped else record o { packages = p ∷ q }).packages
            ≡ (if b then live_bytes q else contents p.segment ++ live_bytes q))
          × ArePackages (if b then skipped else record o { packages = p ∷ q }).packages
          × Starts (if b then skipped else record o { packages = p ∷ q }).packages
    by_abort true e r = r
    by_abort false e r =
        (ap (λ b. if b then live_bytes q else contents p.segment ++ live_bytes q) e, v, e)

-- What a run writes, in front of what it leaves, is what was there.
record Writes (q : List Package) (w : Written) : Type 0 where
  whole : w.bytes ++ live_bytes w.outlet.packages ≡ live_bytes q
  valid : ArePackages w.outlet.packages

hand_back-packages : (p : Package) (o : Outlet) → (hand_back p o).packages ≡ o.packages
unfolding hand_back
hand_back-packages p o = ground arith

wrote_lem :
    (n : ℕ) (p : Package) (q : List Package) (o : Outlet)
    → n ≤ used p.segment
    → p.abort ≡ false
    → ArePackages (p ∷ q)
    → (take n (contents p.segment) ++ live_bytes (wrote n p q o).packages
        ≡ contents p.segment ++ live_bytes q)
      × ArePackages (wrote n p q o).packages
unfolding wrote
wrote_lem n p q o h e v = by_size (leb (used left) 0) refl
  where
    left : Segment
    left = consume p.segment n

    kept : Package
    kept = record p { segment = left }

    done : Outlet
    done = hand_back (record kept { segment = resume left }) (record o { packages = q })

    same : done.packages ≡ q
    same = hand_back-packages (record kept { segment = resume left }) (record o { packages = q })

    cut : contents left ≡ drop n (contents p.segment)
    cut = (contents-consume p.segment n v.0).0 h

    joined : take n (contents p.segment) ++ contents left ≡ contents p.segment
    joined =
        ap (λ xs. take n (contents p.segment) ++ xs) cut ∙ take-append-drop n (contents p.segment)

    all_taken : used left ≤ 0 → take n (contents p.segment) ≡ contents p.segment
    all_taken z =
        take_all (contents p.segment) n
          (omega (arith, z, used-consume p.segment n h, length-contents p.segment v.0))

    by_size :
        (b : Bool)
        → leb (used left) 0 ≡ b
        → (take n (contents p.segment)
              ++ live_bytes (if b then done else record o { packages = kept ∷ q }).packages
            ≡ contents p.segment ++ live_bytes q)
          × ArePackages (if b then done else record o { packages = kept ∷ q }).packages
    by_size true z = (
      ap₂ ◌++◌ (all_taken (leb→le (used left) 0 z)) (ap live_bytes same),
      subst ArePackages (sym same) v.1,
    )
    by_size false z = (
      ap
            (λ b.
              take n (contents p.segment)
              ++ (if b then live_bytes q else contents left ++ live_bytes q))
            e
          ∙ sym (append_assoc (take n (contents p.segment)) (contents left) (live_bytes q))
          ∙ ap (λ xs. xs ++ live_bytes q) joined,
      (consume-IsSegment p.segment n v.0, v.1),
    )

write_front_lem :
    (answer : Option ℕ) (next : Outlet → Written) (q : List Package) (o : Outlet)
    → ((t : Outlet) → ArePackages t.packages → Writes t.packages (next t))
    → ArePackages q
    → Starts q
    → o.packages ≡ q
    → Writes q (write_front answer next q o)
unfolding write_front
write_front_lem answer next [] o f v s e = record {
  whole = ap live_bytes e;
  valid = subst ArePackages (sym e) tt;
}
write_front_lem none next (p ∷ q) o f v s e = record {
  whole = ap live_bytes e;
  valid = subst ArePackages (sym e) v;
}
write_front_lem (some most) next (p ∷ q) o f v s e =
    let n = min most (used p.segment) in
    let (kept, valid) = wrote_lem n p q o (omega arith) s v in
    let rest = f (wrote n p q o) valid in
    if_both (λ w. Writes (p ∷ q) w) (leb n 0)
      (record { whole = ap live_bytes e; valid = subst ArePackages (sym e) v })
      (record {
        whole =
            append_assoc (take n (contents p.segment)) (next (wrote n p q o)).bytes
              (live_bytes (next (wrote n p q o)).outlet.packages)
            ∙ ap (λ xs. take n (contents p.segment) ++ xs) rest.whole
            ∙ kept
            ∙ sym (ap (λ b. if b then live_bytes q else contents p.segment ++ live_bytes q) s);
        valid = rest.valid;
      })

write_packages_lem :
    (answers : List (Option ℕ)) (o : Outlet)
    → ArePackages o.packages
    → Writes o.packages (write_packages answers o)
unfolding write_packages
write_packages_lem [] o v =
    let (same, valid, starts) = skip_aborted_lem o.packages o v in
    record { whole = same; valid = valid }
write_packages_lem (a ∷ answers) o v =
    let front = skip_aborted o o.packages in
    let (same, valid, starts) = skip_aborted_lem o.packages o v in
    let w =
      write_front_lem a (write_packages answers) front.packages front
        (λ t u. write_packages_lem answers t u) valid starts refl in
    record { whole = w.whole ∙ same; valid = w.valid }

-- From proper segments, the bytes that onWritable writes to the device, followed by those of the
-- packages that it leaves in the queue, are the bytes that were queued, in order, those of aborted
-- packages left out: no byte is lost, doubled or moved, and nothing of an aborted package is written.
pub on_writable_order :
    (answers : List (Option ℕ)) (o : Outlet)
    → ArePackages o.packages
    → let w = on_writable answers o in
      (w.bytes ++ live_bytes w.outlet.packages ≡ live_bytes o.packages)
      × ArePackages w.outlet.packages
unfolding on_writable
on_writable_order answers o v = let w = write_packages_lem answers o v in (w.whole, w.valid)
