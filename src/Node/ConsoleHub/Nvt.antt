-- ===== src/Node/ConsoleHub/Nvt.antt =====
-- console_hub.go, normalizeNVTLineEndings: the Enter key of a telnet client, CR LF or CR NUL, as the bare
-- CR that a node expects.
use iolbox.Common.{
  ℕ, ◌≡◌, ◌≢◌, refl, Bool, false, ◌&&◌, ◌||◌, ◌==◌, if◌then◌else◌, List, [], ◌∷◌, ◌++◌, arith,
}

abbrev pub nul : ℕ
nul = 0

abbrev pub lf : ℕ
lf = 10

abbrev pub cr : ℕ
cr = 13

-- The byte is the second one of an Enter key.
abbrev pub swallows : Bool → ℕ → Bool
swallows cr_pending b = cr_pending && (b == lf || b == nul)

unfoldable pub normalize_nvt : List ℕ → Bool → List ℕ × Bool
normalize_nvt [] cr_pending = ([], cr_pending)
normalize_nvt (b ∷ bs) cr_pending =
    let (rest, pending) = normalize_nvt bs (if swallows cr_pending b then false else b == cr) in
    (if swallows cr_pending b then rest else b ∷ rest, pending)

-- A stream that is cut into two reads comes out as one read of the whole does.
pub normalize_nvt-append :
    (xs ys : List ℕ) (cr_pending : Bool)
    → normalize_nvt (xs ++ ys) cr_pending ≡ (
      (normalize_nvt xs cr_pending).0 ++ (normalize_nvt ys (normalize_nvt xs cr_pending).1).0,
      (normalize_nvt ys (normalize_nvt xs cr_pending).1).1,
    )
unfolding normalize_nvt
normalize_nvt-append [] ys cr_pending = refl
normalize_nvt-append (x ∷ xs) ys cr_pending =
    ground (arith, normalize_nvt-append xs ys (if swallows cr_pending x then false else x == cr))

-- The keys of a telnet client: Enter in either form, or a byte of its own.
pub data Key : Type 0 where
  enter_lf enter_nul : Key
  plain : (b : ℕ) → b ≢ cr → Key

-- What the client sends for it, and what the node is to get.
unfoldable pub sent : List Key → List ℕ
sent [] = []
sent (enter_lf ∷ ks) = cr ∷ lf ∷ sent ks
sent (enter_nul ∷ ks) = cr ∷ nul ∷ sent ks
sent (plain b _ ∷ ks) = b ∷ sent ks

unfoldable pub meant : List Key → List ℕ
meant [] = []
meant (enter_lf ∷ ks) = cr ∷ meant ks
meant (enter_nul ∷ ks) = cr ∷ meant ks
meant (plain b _ ∷ ks) = b ∷ meant ks

pub normalize_nvt-sent : (ks : List Key) → normalize_nvt (sent ks) false ≡ (meant ks, false)
unfolding normalize_nvt sent meant
normalize_nvt-sent [] = refl
normalize_nvt-sent (enter_lf ∷ ks) = rw (normalize_nvt-sent ks)
normalize_nvt-sent (enter_nul ∷ ks) = rw (normalize_nvt-sent ks)
normalize_nvt-sent (plain b other ∷ ks) = ground (arith, normalize_nvt-sent ks)
