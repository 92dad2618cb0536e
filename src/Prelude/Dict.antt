-- ===== src/Prelude/Dict.antt =====
-- Python's `dict` and `set` with text keys. A dict keeps the order in which keys were inserted.
use Prim.Native.String.{String}
use mathlib.Core.Path.{◌≡◌, refl, sym, ◌∙◌, subst}
use mathlib.Core.Logic.{inl, inr}
use mathlib.Core.Bool.{Bool, ◌||◌}
use mathlib.Core.List.{List, [], ◌∷◌, ◌++◌}
use mathlib.Core.Option.{Option, none, some, some-injective}
use native.Mathlib.Omega.{arith}
use text.Mathlib.Text.{◌==◌}
use text.Mathlib.TextEquality.{eq_iff}
use border.Prelude.Tests.{if◌then◌else◌, Bool-cases}
use border.Prelude.Lists.{some_of}

abbrev pub Dict {ℓ} : Type ℓ → Type ℓ
Dict V = List (String × V)

module _ {ℓ} {V : Type ℓ} where
  -- `d.get(k)`
  unfoldable pub get : String → Dict V → Option V
  get k [] = none
  get k ((j, v) ∷ d) = if j == k then some v else get k d

  -- `d[k] = v`
  unfoldable pub put : String → V → Dict V → Dict V
  put k v [] = (k, v) ∷ []
  put k v ((j, w) ∷ d) = if j == k then (j, v) ∷ d else (j, w) ∷ put k v d

  -- `d.pop(k, None)`, `del d[k]` where the key is there
  unfoldable pub remove : String → Dict V → Dict V
  remove k [] = []
  remove k ((j, v) ∷ d) = let rest = remove k d in if j == k then rest else (j, v) ∷ rest

  -- `d.get(k, default)`
  unfoldable pub get_or : String → V → Dict V → V
  unfolding get
  get_or k default d = elim (get k d) [ none ↦ default | some v ↦ v ]

  -- `d.values()`
  abbrev pub values : Dict V → List V
  values [] = []
  values ((k, v) ∷ d) = v ∷ values d

  pub get-put :
      (k j : String) (v : V) (d : Dict V) → get j (put k v d) ≡ (if k == j then some v else get j d)
  unfolding get put
  get-put k j v [] = refl
  get-put k j v ((i, w) ∷ d) = ground (arith, eq_iff k j, eq_iff i k, eq_iff i j, get-put k j v d)

  pub get-remove :
      (k j : String) (d : Dict V) → get j (remove k d) ≡ (if k == j then none else get j d)
  unfolding get remove
  get-remove k j [] = ground arith
  get-remove k j ((i, w) ∷ d) = ground (arith, get-remove k j d, eq_iff i k, eq_iff i j, eq_iff k j)

  pub get_or-put :
      (k j : String) (default v : V) (d : Dict V)
      → get_or j default (put k v d) ≡ (if k == j then v else get_or j default d)
  unfolding get_or
  get_or-put k j default v d = ground (arith, get-put k j v d)

  pub get_or-remove :
      (k j : String) (default : V) (d : Dict V)
      → get_or j default (remove k d) ≡ (if k == j then default else get_or j default d)
  unfolding get_or
  get_or-remove k j default d = ground (arith, get-remove k j d)

  -- Every key stands in the dict once.
  abbrev pub AreOnce : Dict V → Type ℓ
  AreOnce [] = Unit
  AreOnce ((k, v) ∷ d) = (get k d ≡ none) × AreOnce d

  pub AreOnce-put :
      (k : String) (v : V) (d : Dict V) → get k d ≡ none → AreOnce d → AreOnce (put k v d)
  unfolding get put
  AreOnce-put k v [] h a = (refl, tt)
  AreOnce-put k v ((j, w) ∷ d) h a =
      ground (arith, AreOnce-put k v d, get-put k j v d, eq_iff k j, eq_iff j k)

  -- What holds of all values still holds when a value of which it holds is put in.
  pub put_keeps {κ} :
      (P : V → Type κ) (k : String) (v : V) (d : Dict V)
      → P v
      → ((j : String) (w : V) → get j d ≡ some w → P w)
      → (j : String) (w : V) → get j (put k v d) ≡ some w
      → P w
  put_keeps P k v d here there j w e = elim (Bool-cases (k == j)) [
    | inl same ↦
        subst P (some-injective v w (sym (rw (same) refl) ∙ sym (get-put k j v d) ∙ e)) here
    | inr other ↦ there j w (sym (rw (other) refl) ∙ sym (get-put k j v d) ∙ e)
  ]

-- `x in s` for a set of texts, kept as the list of its insertions.
abbrev pub contains : String → List String → Bool
contains x s = some_of (λ y. y == x) s

pub contains-append :
    (x : String) (s t : List String) → contains x (s ++ t) ≡ (contains x s || contains x t)
contains-append x [] t = refl
contains-append x (y ∷ s) t = ground (arith, contains-append x s t)
