-- ===== src/Registry/Specs.antt =====
-- What Register of tool/registry.go adds to what Specs and Get give.
use memax_go_agent_sdk.Prelude.{
  String, true, false, Option, none, some, List, [], ◌∷◌, ◌++◌, Dict, lookup, insert, has,
  lookup-insert, ◌==◌, eq_iff, eq_refl, ok, err, >>=-eq-ok, ◌≡◌, refl, subst, ap, ◌∙◌, arith,
  Bool-cases, inl, inr,
}
use memax_go_agent_sdk.Model.{ToolSpec}
use memax_go_agent_sdk.Registry.{
  Tool, Entry, Registry, Error, compile_input_schema, add_entry, register, get, tool_of,
  spec_before, specs_from, specs,
}

lookup-insert_same : (k : String) (e : Entry) (m : Dict Entry) → lookup k (insert k e m) ≡ some e
lookup-insert_same k e m = ground (arith, lookup-insert k k e m, eq_refl k)

lookup-insert_other :
    (k n : String) (e : Entry) (m : Dict Entry)
    → (k == n) ≡ false
    → lookup n (insert k e m) ≡ lookup n m
lookup-insert_other k n e m h = ground (arith, lookup-insert n k e m)

absent-other :
    (k n : String) (d : Entry) (m : Dict Entry)
    → has k m ≡ false
    → lookup n m ≡ some d
    → (k == n) ≡ false
absent-other k n d m h e = elim (Bool-cases (k == n)) [
  | inl t ↦ absurd (clash (lookup k m) h (ap (λ x. lookup x m) ((eq_iff k n).0 t) ∙ e))
  | inr t ↦ t
]
  where
    clash : (o : Option Entry) → (elim o [ none ↦ false | some _ ↦ true ]) ≡ false → o ≡ some d → ⊥
    clash none a b = cc b
    clash (some x) a b = cc a

-- An entry under a new name changes nothing that Specs reads, and a name at the end adds its spec.
specs_before-insert :
    (m : Dict Entry) (k n : String) (e : Entry) (names : List String) (ss : List ToolSpec)
    → has k m ≡ false
    → (o : Option Entry) (q : Option (List ToolSpec)) → lookup n m ≡ o
    → spec_before o q ≡ some ss
    → ((rest : List ToolSpec)
        → q ≡ some rest
        → specs_from (insert k e m) names ≡ some (rest ++ e.tool.spec ∷ []))
    → spec_before (lookup n (insert k e m)) (specs_from (insert k e m) names)
      ≡ some (ss ++ e.tool.spec ∷ [])
specs_before-insert m k n e names ss f none q a c ih = cc c
specs_before-insert m k n e names ss f (some d) none a c ih = cc c
specs_before-insert m k n e names ss f (some d) (some rest) a c ih =
    let found = lookup-insert_other k n e m (absent-other k n d m f a) ∙ a in
    let same : d.tool.spec ∷ rest ≡ ss = ground arith in
    ap (λ o. spec_before o (specs_from (insert k e m) names)) found
    ∙ ap (λ q. spec_before (some d) q) (ih rest refl)
    ∙ ap (λ (xs : List ToolSpec). some (xs ++ e.tool.spec ∷ [])) same

specs_from-insert :
    (m : Dict Entry) (k : String) (e : Entry) (names : List String) (ss : List ToolSpec)
    → has k m ≡ false
    → specs_from m names ≡ some ss
    → specs_from (insert k e m) (names ++ k ∷ []) ≡ some (ss ++ e.tool.spec ∷ [])
unfolding specs_from
specs_from-insert m k e [] ss f h =
    let g : [] ≡ ss = ground arith in
    ap (λ o. spec_before o (some [])) (lookup-insert_same k e m)
    ∙ ap (λ (xs : List ToolSpec). some (xs ++ e.tool.spec ∷ [])) g
specs_from-insert m k e (n ∷ names) ss f h =
    specs_before-insert m k n e (names ++ k ∷ []) ss f (lookup n m) (specs_from m names) refl h
      (λ rest. specs_from-insert m k e names rest f)

-- What a tool that is registered adds.
pub record Added (r s : Registry) (t : Tool) (ss : List ToolSpec) : Type 0 where
  pub listed : specs s ≡ some (ss ++ t.spec ∷ [])
  pub found : get s t.spec.name ≡ some t
  pub others : (n : String) → (t.spec.name == n) ≡ false → get s n ≡ get r n

add_entry-Added :
    (compile : String → Option String) (r s : Registry) (t : Tool) (schema : Option String)
    (ss : List ToolSpec)
    → specs r ≡ some ss
    → add_entry compile r t schema ≡ ok s
    → Added r s t ss
unfolding add_entry specs get
add_entry-Added compile r s t schema ss h k = elim (Bool-cases (has t.spec.name r.entries)) [
  | inl w ↦ absurd (refused (rw w at k))
  | inr w ↦
      let entry : Entry = record { tool = t; input_schema = schema } in
      let made : Registry = record {
        entries = insert t.spec.name entry r.entries;
        order = r.order ++ t.spec.name ∷ [];
      } in
      let same : made ≡ s = cc (rw w at k) in
      subst (λ (x : Registry). Added r x t ss) same
        (record {
          listed = specs_from-insert r.entries t.spec.name entry r.order ss w h;
          found = ap tool_of (lookup-insert_same t.spec.name entry r.entries);
          others = λ n a. ap tool_of (lookup-insert_other t.spec.name n entry r.entries a);
        })
]
  where
    refused : {x : Error} → err x ≡ ok s → ⊥
    refused h = cc h

module _ (compile : String → Option String) where
  -- A registration that succeeds adds the tool's spec at the end of what Specs gives, makes Get find
  -- the tool under its name, and leaves what Get finds under any other name.
  pub register-specs :
      (r s : Registry) (t : Tool) (ss : List ToolSpec)
      → specs r ≡ some ss
      → register compile r (some t) ≡ ok s
      → Added r s t ss
  unfolding register
  register-specs r s t ss h k = elim (Bool-cases (t.spec.name == "")) [
    | inl u ↦ absurd (refused (rw u at k))
    | inr u ↦
        let (schema, e, f) =
          >>=-eq-ok (compile_input_schema compile t.spec.name t.input_schema) _ (rw u at k) in
        add_entry-Added compile r s t schema ss h f
  ]
    where
      refused : {x : Error} → err x ≡ ok s → ⊥
      refused h = cc h
