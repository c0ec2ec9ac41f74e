-- ===== src/Sandbox/Urls.antt =====
-- internal/sandbox/mounts.go: the edits of a sandbox's allowlist and mounts, and the git policy that
-- a sandbox is started with.
use muro.Base.{
  true, false, ◌&&◌, ◌||◌, not, List, [], ◌∷◌, ◌++◌, Option, Bytes, bytes_eq, bytes_eq_iff, in_set,
  if◌then◌else◌, refl, sym, ap, ◌∙◌, ◌≡◌, arith, Bool-cases, inl, inr,
}
use muro.Config.{Mount, GitPolicy, GitRepoPolicy}
use muro.Config.Paths.{expand_home}

-- `mergeMounts`
unfoldable pub merge_mounts : List Mount → List Mount → List Mount
merge_mounts existing add = existing ++ add

-- `seen` and `out` of `applyURLDelta`
pub record Delta : Type 0 where
  pub seen : List Bytes
  pub out : List Bytes

-- the body of both loops
unfoldable pub visit : List Bytes → Delta → Bytes → Delta
visit remove d u =
    if in_set u remove || in_set u d.seen
    then d
    else record { seen = u ∷ d.seen; out = d.out ++ u ∷ [] }

unfoldable pub visit_all : List Bytes → Delta → List Bytes → Delta
visit_all remove d [] = d
visit_all remove d (u ∷ us) = visit_all remove (visit remove d u) us

-- `applyURLDelta`
unfoldable pub apply_url_delta : List Bytes → List Bytes → List Bytes → List Bytes
unfolding visit_all
apply_url_delta existing add remove =
    (visit_all remove (visit_all remove (record { seen = []; out = [] }) existing) add).out

-- No entry stands twice.
unfoldable pub NoDup : List Bytes → Type 0
NoDup [] = Unit
NoDup (x ∷ xs) = (in_set x xs ≡ false) × NoDup xs

in_set-snoc :
    (x u : Bytes) (xs : List Bytes) → in_set x (xs ++ u ∷ []) ≡ (in_set x xs || bytes_eq u x)
unfolding in_set
in_set-snoc x u [] = ground arith
in_set-snoc x u (y ∷ xs) = let ih = in_set-snoc x u xs in ground arith

bytes_eq_sym : (x y : Bytes) → bytes_eq x y ≡ false → bytes_eq y x ≡ false
bytes_eq_sym x y h = ground (arith, bytes_eq_iff x y, bytes_eq_iff y x)

NoDup-snoc : (u : Bytes) (xs : List Bytes) → NoDup xs → in_set u xs ≡ false → NoDup (xs ++ u ∷ [])
unfolding NoDup in_set
NoDup-snoc u [] n h = (refl, tt)
NoDup-snoc u (x ∷ xs) (a, n) h = (
  in_set-snoc x u xs ∙ ground (arith, bytes_eq_sym x u (ground arith)),
  NoDup-snoc u xs n (ground arith),
)

-- `seen` holds the entries of `out`
abbrev pub Agrees : Delta → Type 0
Agrees d = (x : Bytes) → in_set x d.seen ≡ in_set x d.out

visit-Agrees : (remove : List Bytes) (d : Delta) (u : Bytes) → Agrees d → Agrees (visit remove d u)
unfolding visit in_set
visit-Agrees remove d u h x = elim (Bool-cases (in_set u remove || in_set u d.seen)) [
  | inl e ↦ rw (e) (h x)
  | inr e ↦ rw (e, in_set-snoc) ground (arith, h x)
]

visit_all-Agrees :
    (remove : List Bytes) (d : Delta) (us : List Bytes) → Agrees d → Agrees (visit_all remove d us)
unfolding visit_all
visit_all-Agrees remove d [] h = h
visit_all-Agrees remove d (u ∷ us) h =
    visit_all-Agrees remove (visit remove d u) us (visit-Agrees remove d u h)

visit-NoDup :
    (remove : List Bytes) (d : Delta) (u : Bytes)
    → Agrees d
    → NoDup d.out
    → NoDup (visit remove d u).out
unfolding visit
visit-NoDup remove d u h n = elim (Bool-cases (in_set u remove || in_set u d.seen)) [
  | inl e ↦ rw (e) n
  | inr e ↦ rw (e) (NoDup-snoc u d.out n (sym (h u) ∙ ground arith))
]

visit_all-NoDup :
    (remove : List Bytes) (d : Delta) (us : List Bytes)
    → Agrees d
    → NoDup d.out
    → NoDup (visit_all remove d us).out
unfolding visit_all
visit_all-NoDup remove d [] h n = n
visit_all-NoDup remove d (u ∷ us) h n =
    visit_all-NoDup remove (visit remove d u) us (visit-Agrees remove d u h)
      (visit-NoDup remove d u h n)

in_set_of_eq : (x u : Bytes) (xs : List Bytes) → bytes_eq u x ≡ true → in_set u xs ≡ in_set x xs
in_set_of_eq x u xs h = ap (λ v. in_set v xs) ((bytes_eq_iff u x).0 h)

visit-in_set :
    (remove : List Bytes) (d : Delta) (u x : Bytes)
    → Agrees d
    → in_set x (visit remove d u).out ≡ (in_set x d.out || (bytes_eq u x && not (in_set x remove)))
unfolding visit
visit-in_set remove d u x h = elim (Bool-cases (in_set u remove || in_set u d.seen)) [
  | inl e ↦ rw (e) (elim (Bool-cases (bytes_eq u x)) [
    | inl q ↦ ground (arith, in_set_of_eq x u remove q, in_set_of_eq x u d.seen q, h x)
    | inr q ↦ ground arith
  ])
  | inr e ↦
      rw (e, in_set-snoc)
        (elim (Bool-cases (bytes_eq u x)) [
          | inl q ↦ ground (arith, in_set_of_eq x u remove q)
          | inr q ↦ ground arith
        ])
]

visit_all-in_set :
    (remove : List Bytes) (d : Delta) (us : List Bytes) (x : Bytes)
    → Agrees d
    → in_set x (visit_all remove d us).out
      ≡ (in_set x d.out || (in_set x us && not (in_set x remove)))
unfolding visit_all in_set
visit_all-in_set remove d [] x h = ground arith
visit_all-in_set remove d (u ∷ us) x h =
    visit_all-in_set remove (visit remove d u) us x (visit-Agrees remove d u h)
    ∙ ground (arith, visit-in_set remove d u x h)

-- The new allowlist has exactly the entries that were there or are added and are not removed (an
-- entry that is both added and removed is out), and none of them twice.
pub apply_url_delta_lem :
    (existing add remove : List Bytes)
    → NoDup (apply_url_delta existing add remove)
      × ((u : Bytes)
          → in_set u (apply_url_delta existing add remove)
            ≡ ((in_set u existing || in_set u add) && not (in_set u remove)))
unfolding apply_url_delta in_set NoDup
apply_url_delta_lem existing add remove =
    let start : Delta = record { seen = []; out = [] } in
    let agrees : Agrees start = λ x. refl in
    let agrees' = visit_all-Agrees remove start existing agrees in
    (
      visit_all-NoDup remove (visit_all remove start existing) add agrees'
          (visit_all-NoDup remove start existing agrees tt),
      λ u.
          visit_all-in_set remove (visit_all remove start existing) add u agrees'
          ∙ ground (arith, visit_all-in_set remove start existing u agrees),
    )

-- the loop of `cloneGitPolicy`
unfoldable pub clone_repos : Option Bytes → List GitRepoPolicy → List GitRepoPolicy
clone_repos home [] = []
clone_repos home (repo ∷ repos) =
    let rest = clone_repos home repos in
    if repo.worktree
    then rest
    else record {
      host = expand_home home repo.host;
      allowed_branches = repo.allowed_branches;
      allowed_remotes = repo.allowed_remotes;
      worktree = false;
      mount_path = [];
    }
      ∷ rest

-- `cloneGitPolicy`
unfoldable pub clone_git_policy : Option Bytes → GitPolicy → GitPolicy
unfolding clone_repos
clone_git_policy home p = record { repos = clone_repos home p.repos }
