-- ===== src/Metrics/Collector/Sorted.antt =====
-- src/metrics/MetricsCollector.cpp: the providers stay in the order of their names.
use mathlib.Core.List.{Perm}
use mathlib.Core.List.Perm
use stream_gate.Base.{String, ◌≡◌, refl, false, none, some, [], ◌∷◌, Bool-cases, inl, inr, All}
use stream_gate.Base.Slots.{snoc}
use stream_gate.Base.Text.{text_lt, text_lt_asymm, text_le_trans}
use stream_gate.Json.{JsonLib}
use stream_gate.Metrics.Collector.{Provider, Providers, name_of, place, sort, register_provider}

module _ (lib : JsonLib) where
  -- No name of the list comes before this one.
  abbrev IsFirst : String → Providers lib → Type 0
  IsFirst name = All (λ q. text_lt (name_of lib q) name ≡ false)

  abbrev pub IsSorted : Providers lib → Type 0
  IsSorted [] = Unit
  IsSorted (p ∷ ps) = IsFirst (name_of lib p) ps × IsSorted ps

  IsFirst-place :
      (name : String) (p : Provider lib) (ps : Providers lib)
      → text_lt (name_of lib p) name ≡ false
      → IsFirst name ps
      → IsFirst name (place lib p ps)
  unfolding place
  IsFirst-place name p [] h k = (h, tt)
  IsFirst-place name p (q ∷ qs) h k = elim (Bool-cases (text_lt (name_of lib p) (name_of lib q))) [
    | inl less ↦ rw less (h, k)
    | inr not_less ↦ rw not_less (k.0, IsFirst-place name p qs h k.1)
  ]

  IsFirst-trans :
      (a b : String) (ps : Providers lib) → text_lt b a ≡ false → IsFirst b ps → IsFirst a ps
  IsFirst-trans a b [] h k = tt
  IsFirst-trans a b (q ∷ qs) h k =
      (text_le_trans a b (name_of lib q) h k.0, IsFirst-trans a b qs h k.1)

  place-IsSorted : (p : Provider lib) (ps : Providers lib) → IsSorted ps → IsSorted (place lib p ps)
  unfolding place
  place-IsSorted p [] h = (tt, tt)
  place-IsSorted p (q ∷ qs) h = elim (Bool-cases (text_lt (name_of lib p) (name_of lib q))) [
    | inl less ↦
        let before : text_lt (name_of lib q) (name_of lib p) ≡ false =
          text_lt_asymm (name_of lib p) (name_of lib q) less in
        let first = IsFirst-trans (name_of lib p) (name_of lib q) qs before h.0 in
        rw less ((before, first), h)
    | inr not_less ↦
        rw not_less (IsFirst-place (name_of lib q) p qs not_less h.0, place-IsSorted p qs h.1)
  ]

  sort-IsSorted : (ps : Providers lib) → IsSorted (sort lib ps)
  unfolding sort
  sort-IsSorted [] = tt
  sort-IsSorted (p ∷ ps) = place-IsSorted p (sort lib ps) (sort-IsSorted ps)

  place-perm : (p : Provider lib) (ps : Providers lib) → Perm (place lib p ps) (p ∷ ps)
  unfolding place
  place-perm p [] = Perm.refl _
  place-perm p (q ∷ qs) = elim (Bool-cases (text_lt (name_of lib p) (name_of lib q))) [
    | inl less ↦ rw less (Perm.refl _)
    | inr not_less ↦ rw not_less (Perm.trans (Perm.cons q (place-perm p qs)) (Perm.swap p q qs))
  ]

  sort-perm : (ps : Providers lib) → Perm (sort lib ps) ps
  unfolding sort
  sort-perm [] = Perm.refl _
  sort-perm (p ∷ ps) = Perm.trans (place-perm p (sort lib ps)) (Perm.cons p (sort-perm ps))

  snoc-perm : (ps : Providers lib) (p : Provider lib) → Perm (snoc ps p) (p ∷ ps)
  snoc-perm [] p = Perm.refl _
  snoc-perm (q ∷ qs) p = Perm.trans (Perm.cons q (snoc-perm qs p)) (Perm.swap p q qs)

  -- A provider that is registered joins those that are there, and all stand in the order of their
  -- names, whatever order they stood in; a null pointer changes nothing.
  pub register_provider-IsSorted :
      (p : Provider lib) (ps : Providers lib)
      → IsSorted (register_provider lib (some p) ps)
        × Perm (register_provider lib (some p) ps) (p ∷ ps)
        × (register_provider lib none ps ≡ ps)
  unfolding register_provider
  register_provider-IsSorted p ps =
      (sort-IsSorted (snoc ps p), Perm.trans (sort-perm (snoc ps p)) (snoc-perm ps p), refl)
