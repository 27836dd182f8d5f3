-- ===== src/Rules/Aliases.antt =====
-- Normalising a step twice is normalising it once.
use displayfab_smart_factory.Prelude.{
  String, none, some, ◌≡◌, refl, inl, inr, Option-cases, lookup, lookup-AllValues, String-discrete,
}
use displayfab_smart_factory.Rules.{step_aliases, alias}

alias_of_value : (k v : String) → lookup k step_aliases ≡ some v → alias v ≡ v
unfolding alias lookup String-discrete
alias_of_value k v =
    lookup-AllValues (λ s. alias s ≡ s) k v step_aliases (refl, (refl, (refl, (refl, tt))))

alias_of_none : (s : String) → lookup s step_aliases ≡ none → alias s ≡ s
unfolding alias
alias_of_none s h = rw h refl

alias_of_some : (s v : String) → lookup s step_aliases ≡ some v → alias s ≡ v
unfolding alias
alias_of_some s v h = rw h refl

-- The alias of an alias is the alias: normalising a step that is stored normalised, as the sequence
-- check and the dispatch do, changes nothing, for any text.
pub alias-alias : (s : String) → alias (alias s) ≡ alias s
alias-alias s = elim (Option-cases (lookup s step_aliases)) [
  | inl h ↦ rw (alias_of_none s h) (alias_of_none s h)
  | inr (v, h) ↦ rw (alias_of_some s v h) (alias_of_value s v h)
]
