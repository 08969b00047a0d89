-- ===== src/Router/Writing.antt =====
-- core/Router.cpp, onSyncEvent and onWritable: the packages queued for the tunnel device.
-- The answers of `write` are arguments. A package is a BufferSegment with its marks; what the reactor is
-- asked for goes to a log. The capture file is left out.
pub mod Order
use vpn_service_android.Common.{
  ℕ, ◌+◌, List, [], ◌∷◌, ◌++◌, Option, none, some, Bool, true, false, ltb, leb, ◌&&◌, not,
  if◌then◌else◌, take, min,
}
use vpn_service_android.Buffer.Segment.{Segment, consume, used, contents, mark, resume}

pub record Package : Type 0 where
  pub segment : Segment
  pub buffering : Bool
  pub abort : Bool
  pub release_after : Bool

pub data Effect : Type 0 where
  add_write del_write : Effect

-- `mData`, the packages that left it and are not deleted, the packages deleted, and the log.
pub record Outlet : Type 0 where
  pub packages : List Package
  pub given_back : List Package
  pub released : List Package
  pub log : List Effect

-- onSyncEvent for WRITE_PACKAGE: whether the result's code is set to 0. `waiting` is whether the reactor
-- has the write event of the device already.
unfoldable pub on_sync_event : Bool → Package → Outlet → Bool × Outlet
unfolding used mark
on_sync_event waiting p o =
    let taken = record p { segment = mark p.segment; buffering = true } in
    let queued = record o { packages = o.packages ++ taken ∷ [] } in
    if ltb 0 (used p.segment) && (not p.buffering && not p.abort)
    then (true, if waiting then queued else record queued { log = o.log ++ add_write ∷ [] })
    else (false, o)

-- A package that leaves the queue is deleted, or its owner may use it again.
unfoldable pub hand_back : Package → Outlet → Outlet
hand_back p o =
    if p.release_after
    then record o { released = o.released ++ p ∷ [] }
    else record o { given_back = o.given_back ++ record p { buffering = false } ∷ [] }

-- The loop passes over the aborted packages at the front.
unfoldable pub skip_aborted : Outlet → List Package → Outlet
unfolding hand_back
skip_aborted o [] = record o { packages = [] }
skip_aborted o (p ∷ q) =
    let rest = skip_aborted (hand_back p o) q in
    if p.abort then rest else record o { packages = p ∷ q }

-- What the device got, the state, and whether the loop ended within the answers given.
pub record Written : Type 0 where
  pub bytes : List ℕ
  pub outlet : Outlet
  pub ended : Bool

-- The rest of the packages behind an answer that takes `n` bytes, at least one, of the first.
unfoldable pub wrote : ℕ → Package → List Package → Outlet → Outlet
unfolding consume used hand_back resume
wrote n p q o =
    let left = record p { segment = consume p.segment n } in
    let done =
      hand_back (record left { segment = resume left.segment }) (record o { packages = q }) in
    if leb (used left.segment) 0 then done else record o { packages = left ∷ q }

unfoldable pub write_front : Option ℕ → (Outlet → Written) → List Package → Outlet → Written
unfolding wrote used contents
write_front answer next [] o = record { bytes = []; outlet = o; ended = true }
write_front none next (p ∷ q) o = record { bytes = []; outlet = o; ended = true }
write_front (some most) next (p ∷ q) o =
    let n = min most (used p.segment) in
    let rest = next (wrote n p q o) in
    if leb n 0
    then record { bytes = []; outlet = o; ended = true }
    else record rest { bytes = take n (contents p.segment) ++ rest.bytes }

unfoldable pub is_empty : List Package → Bool
is_empty [] = true
is_empty (p ∷ q) = false

unfoldable pub write_packages : List (Option ℕ) → Outlet → Written
unfolding skip_aborted write_front is_empty
write_packages [] o =
    let front = skip_aborted o o.packages in
    record { bytes = []; outlet = front; ended = is_empty front.packages }
write_packages (a ∷ answers) o =
    let front = skip_aborted o o.packages in
    write_front a (write_packages answers) front.packages front

unfoldable pub on_writable : List (Option ℕ) → Outlet → Written
unfolding write_packages
on_writable answers o =
    let w = write_packages answers o in
    record w { outlet = record w.outlet { log = w.outlet.log ++ del_write ∷ [] } }
