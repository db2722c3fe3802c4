-- ===== src/Catalog/Build/Aliases.antt =====
-- A name that the catalog resolves keeps its model while the catalog is built.
use tokemon.Prelude.{
  ap, subst, ◌≡◌, refl, sym, ◌∙◌, Bool, List, [], ◌∷◌, Option, none, some, any, arith, inl, inr,
  Bool-cases, Option-cases,
}
use tokemon.Prelude.Texts.{Text, text_eq, text_eq_iff, trim_space}
use tokemon.Prelude.Maps.{Map, lookup, insert, lookup-insert, lookup-insert_self}
use mathlib.Core.List.{Memᴰ}
use mathlib.Core.List.Memᴰ.{head, tail, cases_cons}
use tokemon.Catalog.{Model, Catalog}
use tokemon.Catalog.Build.{
  CatalogError, add_aliases, add_models, check_models, validate_model, sorted, new_catalog,
}

-- An alias that is free can be added without touching the others.
insert-keeps :
    (alias id name owner : Text) (aliases : Map Text)
    → lookup alias aliases ≡ none
    → lookup name aliases ≡ some owner
    → lookup name (insert alias id aliases) ≡ some owner
insert-keeps alias id name owner aliases free known = elim (Bool-cases (text_eq alias name)) [
  | inl same ↦ let e = (text_eq_iff alias name).0 same in absurd (ground (arith, free, known, e))
  | inr other ↦ lookup-insert alias name id aliases ∙ rw other known
]

-- Adding the aliases of a model never takes a name from the model that has it.
pub add_aliases-keeps :
    (id : Text) (seen raws : List Text) (aliases : Map Text) (name owner : Text)
    → lookup name aliases ≡ some owner
    → lookup name (add_aliases id seen raws aliases).1 ≡ some owner
unfolding add_aliases
add_aliases-keeps id seen [] aliases name owner known = known
add_aliases-keeps id seen (raw ∷ raws) aliases name owner known =
    elim (Bool-cases (any (text_eq (trim_space raw)) seen)) [
      | inl repeated ↦ rw repeated known
      | inr new ↦ elim (Bool-cases (text_eq (trim_space raw) id)) [
        | inl own ↦
            rw new
              (rw own (add_aliases-keeps id (trim_space raw ∷ seen) raws aliases name owner known))
        | inr named ↦ elim (Option-cases (lookup (trim_space raw) aliases)) [
          | inr (other, taken) ↦ rw new (rw named (rw taken known))
          | inl free ↦ rw new (
              rw named (
                rw free (
                  add_aliases-keeps id (trim_space raw ∷ seen) raws
                    (insert (trim_space raw) id aliases) name owner
                    (insert-keeps (trim_space raw) id name owner aliases free known))))
        ]
      ]
    ]

add_aliases-adds :
    (id : Text) (seen raws : List Text) (aliases : Map Text) (name : Text)
    → lookup id aliases ≡ some id
    → (add_aliases id seen raws aliases).0 ≡ none
    → Memᴰ name raws
    → lookup (trim_space name) (add_aliases id seen raws aliases).1 ≡ some id
unfolding add_aliases
add_aliases-adds id seen [] aliases name known good i = elim i [ ]
add_aliases-adds id seen (raw ∷ raws) aliases name known good i =
    let alias = trim_space raw in
    elim (Bool-cases (any (text_eq alias) seen)) [
      | inl repeated ↦ absurd (ground (arith, good, repeated))
      | inr new ↦ elim (Bool-cases (text_eq alias id)) [
        | inl own ↦
            let rest : (add_aliases id (alias ∷ seen) raws aliases).0 ≡ none =
              ground (arith, good, new, own) in
            rw new (
              rw own (elim (cases_cons i) [
                | inl e ↦ rw e (
                    subst
                      (λ (t : Text).
                        lookup t (add_aliases id (alias ∷ seen) raws aliases).1 ≡ some id)
                      (sym ((text_eq_iff alias id).0 own))
                      (add_aliases-keeps id (alias ∷ seen) raws aliases id id known))
                | inr j ↦ add_aliases-adds id (alias ∷ seen) raws aliases name known rest j
              ]))
        | inr named ↦ elim (Option-cases (lookup alias aliases)) [
          | inr (other, taken) ↦ absurd (ground (arith, good, new, named, taken))
          | inl free ↦
              let more = insert alias id aliases in
              let rest : (add_aliases id (alias ∷ seen) raws more).0 ≡ none =
                ground (arith, good, new, named, free) in
              rw new (
                rw named (
                  rw free (elim (cases_cons i) [
                    | inl e ↦ rw e (
                        add_aliases-keeps id (alias ∷ seen) raws more alias id
                          (lookup-insert_self alias id aliases))
                    | inr j ↦
                        add_aliases-adds id (alias ∷ seen) raws more name
                          (insert-keeps alias id id id aliases free known) rest j
                  ])))
        ]
      ]
    ]

add_models_step :
    (id : Text) (model : Model) (models : Map Model) (aliases : Map Text)
    → (add_models ((id, model) ∷ models) aliases).0 ≡ none
    → ((add_aliases id [] model.aliases aliases).0 ≡ none)
      × (add_models ((id, model) ∷ models) aliases
          ≡ add_models models (add_aliases id [] model.aliases aliases).1)
unfolding add_models
add_models_step id model models aliases good =
    elim (Option-cases (add_aliases id [] model.aliases aliases).0) [
      | inr (error, bad) ↦ absurd (ground (arith, good, bad))
      | inl fine ↦ (fine, rw (fine, add_models))
    ]

add_models-keeps :
    (models : Map Model) (aliases : Map Text) (name owner : Text)
    → (add_models models aliases).0 ≡ none
    → lookup name aliases ≡ some owner
    → lookup name (add_models models aliases).1 ≡ some owner
add_models-keeps [] aliases name owner good known = unfold add_models in known
add_models-keeps ((id, model) ∷ models) aliases name owner good known =
    let (fine, step) = add_models_step id model models aliases good in
    rw step (
      add_models-keeps models (add_aliases id [] model.aliases aliases).1 name owner
        (rw (← step) good) (add_aliases-keeps id [] model.aliases aliases name owner known))

-- Where every model names itself and no alias is refused, every alias of a model names that model.
pub add_models-names :
    (models : Map Model) (aliases : Map Text)
    → ((id : Text) (model : Model) → Memᴰ (id, model) models → lookup id aliases ≡ some id)
    → (add_models models aliases).0 ≡ none
    → (id : Text) (model : Model) → Memᴰ (id, model) models
    → (name : Text) → Memᴰ name model.aliases
    → lookup (trim_space name) (add_models models aliases).1 ≡ some id
add_models-names [] aliases own good id model i name j = elim i [ ]
add_models-names ((first, its) ∷ models) aliases own good id model i name j =
    let (fine, step) = add_models_step first its models aliases good in
    let added = (add_aliases first [] its.aliases aliases).1 in
    let rest : (add_models models added).0 ≡ none = rw (← step) good in
    rw step (elim (cases_cons i) [
      | inl e ↦
          let id_is : id ≡ first = ap (λ (p : Text × Model). p.0) e in
          let model_is : model ≡ its = ap (λ (p : Text × Model). p.1) e in
          add_models-keeps models added (trim_space name) id rest (
            rw id_is (
              add_aliases-adds first [] its.aliases aliases name (own first its (head refl)) fine
                (subst (λ (m : Model). Memᴰ name m.aliases) model_is j)))
      | inr k ↦
          add_models-names models added
            (λ other m at.
              add_aliases-keeps first [] its.aliases aliases other other (own other m (tail at)))
            rest id model k name j
    ])

module _ (is_https_url : Text → Bool) where
  check_step :
      (id : Text) (model : Model) (models : Map Model) (aliases : Map Text)
      → (check_models is_https_url ((id, model) ∷ models) aliases).0 ≡ none
      → check_models is_https_url ((id, model) ∷ models) aliases
        ≡ check_models is_https_url models (insert id id aliases)
  unfolding check_models
  check_step id model models aliases good =
      elim (Option-cases (validate_model is_https_url id model)) [
        | inr (error, bad) ↦ absurd (ground (arith, good, bad))
        | inl fine ↦ rw (fine, check_models)
      ]

  check_keeps :
      (models : Map Model) (aliases : Map Text) (name : Text)
      → (check_models is_https_url models aliases).0 ≡ none
      → lookup name aliases ≡ some name
      → lookup name (check_models is_https_url models aliases).1 ≡ some name
  check_keeps [] aliases name good known = unfold check_models in known
  check_keeps ((id, model) ∷ models) aliases name good known =
      let step = check_step id model models aliases good in
      rw step (
        check_keeps models (insert id id aliases) name (rw (← step) good)
          (elim (Bool-cases (text_eq id name)) [
            | inl same ↦
                lookup-insert id name id aliases ∙ rw same (ap some ((text_eq_iff id name).0 same))
            | inr other ↦ lookup-insert id name id aliases ∙ rw other known
          ]))

  check_models-names :
      (models : Map Model) (aliases : Map Text)
      → (check_models is_https_url models aliases).0 ≡ none
      → (id : Text) (model : Model) → Memᴰ (id, model) models
      → lookup id (check_models is_https_url models aliases).1 ≡ some id
  check_models-names [] aliases good id model i = elim i [ ]
  check_models-names ((first, its) ∷ models) aliases good id model i =
      let step = check_step first its models aliases good in
      rw step (elim (cases_cons i) [
        | inl e ↦ rw (ap (λ (p : Text × Model). p.0) e) (
            check_keeps models (insert first first aliases) first (rw (← step) good)
              (lookup-insert_self first first aliases))
        | inr j ↦
            check_models-names models (insert first first aliases) (rw (← step) good) id model j
      ])

  -- In a catalog that New builds, the table of aliases gives every alias of every model, without the
  -- white space around it, the identifier of that model.
  pub new_catalog-names :
      (models : Map Model) (c : Catalog)
      → new_catalog is_https_url models ≡ (some c, none)
      → (id : Text) (model : Model) → Memᴰ (id, model) c.models
      → (name : Text) → Memᴰ name model.aliases
      → lookup (trim_space name) c.by_alias ≡ some id
  unfolding new_catalog
  new_catalog-names models c built id model i name j =
      let checked = check_models is_https_url (sorted models) [] in
      elim (Option-cases checked.0) [
        | inr (error, bad) ↦ absurd (ground (arith, built, bad))
        | inl fine ↦ elim (Option-cases (add_models (sorted models) checked.1).0) [
          | inr (error, bad) ↦ absurd (ground (arith, built, fine, bad))
          | inl good ↦
              let made : new_catalog is_https_url models ≡ (
                some (record {
                  models = sorted models;
                  by_alias = (add_models (sorted models) checked.1).1;
                }),
                none,
              ) =
                rw (new_catalog, fine, good) refl in
              let same =
                ap
                  (λ (r : Option Catalog × Option CatalogError). elim r.0 [ none ↦ c | some d ↦ d ])
                  (sym built ∙ made) in
              rw same (
                add_models-names (sorted models) checked.1
                  (check_models-names (sorted models) [] fine) good id model
                  (subst (λ (d : Catalog). Memᴰ (id, model) d.models) same i) name j)
        ]
      ]
