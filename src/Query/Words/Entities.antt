-- ===== src/Query/Words/Entities.antt =====
-- Entities are bounded in number and distinct but for case, and the final truncation cuts nothing.
use eal_api.Prelude.{
  ℕ, suc, zero, ◌≤◌, ◌≡◌, refl, sym, ap, subst, ◌∙◌, Bool, true, false, ◌||◌, inl, inr, List, [],
  ◌∷◌, ◌++◌, map, arith, Bool-cases, leb, leb-false→lt, is_empty, length, length-append, take,
}
use mathlib.Core.List.{map-append}
use eal_api.Prelude.Ordered.{text_ord}
use eal_api.Prelude.TreeSet.{contains, insert, contains-insert}
use eal_api.Text.{Text, text, to_ascii_lowercase, join}
use eal_api.Query.Words.{
  max_entities, EntityState, flush_entity, CharClasses, raw_tokens, is_candidate, entity_round,
  entity_loop, extract_entities,
}
use eal_api.Query.Words.Keywords.{IsDistinct, IsDistinct-push, contains-append, contains_single}

abbrev identities : List Text → List Text
identities = map to_ascii_lowercase

pub record IsFound (s : EntityState) : Type 0 where
  pub few : length s.output ≤ max_entities
  pub distinct : IsDistinct (map to_ascii_lowercase s.output)
  pub same : (a : Text) → contains a s.seen ≡ contains a (map to_ascii_lowercase s.output)

identities-push :
    (output : List Text) (entity : Text)
    → identities (output ++ entity ∷ []) ≡ identities output ++ to_ascii_lowercase entity ∷ []
identities-push output entity = map-append to_ascii_lowercase output (entity ∷ [])

pushed_entity :
    (s : EntityState) (entity : Text)
    → IsFound s
    → leb max_entities (length s.output) ≡ false
    → contains (to_ascii_lowercase entity) s.seen ≡ false
    → IsFound (record {
      current = [];
      seen = insert (to_ascii_lowercase entity) s.seen;
      output = s.output ++ entity ∷ [];
    })
pushed_entity s entity f room new =
    let id = to_ascii_lowercase entity in
    record {
      few = omega (
        arith,
        length-append s.output (entity ∷ []),
        leb-false→lt max_entities (length s.output) room,
      );
      distinct =
          subst IsDistinct (sym (identities-push s.output entity))
            (IsDistinct-push (identities s.output) id (sym (f.same id) ∙ new) f.distinct);
      same = λ a.
          contains-insert a id s.seen
          ∙ ground (
            arith,
            f.same a,
            contains-append a (identities s.output) (id ∷ []),
            contains_single a id,
          )
          ∙ ap (contains a) (sym (identities-push s.output entity));
    }

cleared : (s : EntityState) → IsFound s → IsFound (record s { current = [] })
cleared s f = record { few = f.few; distinct = f.distinct; same = f.same }

flush_entity-IsFound : (s : EntityState) → IsFound s → IsFound (flush_entity s)
unfolding flush_entity
flush_entity-IsFound s f =
    let entity = join (text " ") s.current in
    elim (Bool-cases (is_empty s.current || leb max_entities (length s.output))) [
      | inl stop ↦ rw stop (cleared s f)
      | inr go ↦ elim (Bool-cases (contains (to_ascii_lowercase entity) s.seen)) [
        | inl old ↦ rw (go, old) (cleared s f)
        | inr new ↦ rw (go, new) (pushed_entity s entity f (has_room _ _ go) new)
      ]
    ]
  where
    has_room : (a b : Bool) → ◌≡◌ {A = Bool} (a || b) false → ◌≡◌ {A = Bool} b false
    has_room a b h = ground arith

module _ (classes : CharClasses) where
  entity_round-IsFound :
      (at_start : Bool) (word : Text) (s : EntityState)
      → IsFound s
      → IsFound (entity_round classes at_start word s)
  unfolding entity_round
  entity_round-IsFound at_start word s f = elim (Bool-cases (is_candidate classes at_start word)) [
    | inl candidate ↦ rw candidate (record { few = f.few; distinct = f.distinct; same = f.same })
    | inr other ↦ rw other (flush_entity-IsFound s f)
  ]

  entity_loop-IsFound :
      (at_start : Bool) (s : EntityState) (words : List Text)
      → IsFound s
      → IsFound (entity_loop classes at_start s words)
  unfolding entity_loop
  entity_loop-IsFound at_start s [] f = f
  entity_loop-IsFound at_start s (word ∷ words) f =
      let s' = entity_round classes at_start word s in
      let f' = entity_round-IsFound at_start word s f in
      elim (Bool-cases (leb max_entities (length s'.output))) [
        | inl full ↦ rw full f'
        | inr more ↦ rw more (entity_loop-IsFound false s' words f')
      ]

  take_all : (n : ℕ) (xs : List Text) → length xs ≤ n → take n xs ≡ xs
  take_all n [] h = take_nil n
    where
      take_nil : (n : ℕ) → take {A = Text} n [] ≡ []
      take_nil zero = refl
      take_nil (suc m) = refl
  take_all zero (x ∷ xs) h = absurd (omega arith)
  take_all (suc n) (x ∷ xs) h = ap (◌∷◌ x) (take_all n xs (omega arith))

  -- The words of the query and the flushes, without the final truncation.
  found_entities : Text → EntityState
  found_entities query = flush_entity (
      entity_loop classes true (record { current = []; seen = []; output = [] })
        (raw_tokens classes query))

  found_entities-IsFound : (query : Text) → IsFound (found_entities query)
  unfolding found_entities
  found_entities-IsFound query = flush_entity-IsFound _ (
      entity_loop-IsFound true _ (raw_tokens classes query)
        (record { few = omega arith; distinct = tt; same = λ a. refl }))

  -- A query has at most 12 entities, no two of them equal in lower case.
  pub extract_entities-IsDistinct :
      (query : Text)
      → (length (extract_entities classes query) ≤ max_entities)
        × IsDistinct (map to_ascii_lowercase (extract_entities classes query))
  unfolding extract_entities found_entities
  extract_entities-IsDistinct query =
      let f = found_entities-IsFound query in
      rw (take_all max_entities (found_entities query).output f.few) (f.few, f.distinct)
