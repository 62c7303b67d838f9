-- ===== src/Contexts/Drop.antt =====
-- What is left of a context after `drop`: src/zuku/defer.h.
use zuku.Base.{
  ◌≡◌, refl, ◌≢◌, inl, inr, true, false, List, [], ◌∷◌, ◌++◌, arith, if◌then◌else◌, Bool-cases,
}
use zuku.Contexts.{
  drop_kept, add, drop, Field, field_value, Kind, has_value, Context, is_same, kind_number,
}

abbrev reversed : {E : Type 0} → List (Field E) → List (Field E) → List (Field E)
reversed [] context = context
reversed (field ∷ fields) context = reversed fields (field ∷ context)

abbrev without : {E : Type 0} → Kind → Context E → Context E
without kind [] = []
without kind (field ∷ context) =
    let rest = without kind context in if is_same kind field then rest else field ∷ rest

add-reversed :
    {E : Type 0} (fields context : List (Field E)) → add fields context ≡ reversed fields context
unfolding add
add-reversed [] context = refl
add-reversed (field ∷ fields) context = add-reversed fields (field ∷ context)

reversed-append :
    {E : Type 0} (fields xs ys : List (Field E))
    → reversed fields xs ++ ys ≡ reversed fields (xs ++ ys)
reversed-append [] xs ys = refl
reversed-append (field ∷ fields) xs ys = reversed-append fields (field ∷ xs) ys

drop_kept-without :
    {E : Type 0} (kind : Kind) (kept : List (Field E)) (context : Context E)
    → drop_kept kind kept context ≡ reversed kept (without kind context)
unfolding drop_kept
drop_kept-without kind kept [] = add-reversed kept []
drop_kept-without kind kept (field ∷ context) = elim (Bool-cases (is_same kind field)) [
  | inl same ↦ rw same (drop_kept-without kind kept context)
  | inr other ↦ rw other (drop_kept-without kind (field ∷ kept) context)
]

has_value-without :
    {E : Type 0} (kind : Kind) (context : Context E) → has_value kind (without kind context) ≡ false
unfolding has_value
has_value-without kind [] = refl
has_value-without kind (field ∷ context) = elim (Bool-cases (is_same kind field)) [
  | inl same ↦ rw same (has_value-without kind context)
  | inr other ↦ rw (other, other) (has_value-without kind context)
]

same_number :
    {E : Type 0} (j k : Kind) (field : Field E)
    → is_same j field ≡ true
    → is_same k field ≡ true
    → kind_number j ≡ kind_number k
same_number j k field g h = ground arith

value-without :
    {E : Type 0} (j k : Kind) (context : Context E)
    → kind_number j ≢ kind_number k
    → field_value j (without k context) ≡ field_value j context
unfolding field_value
value-without j k [] differ = refl
value-without j k (field ∷ context) differ = elim (Bool-cases (is_same k field)) [
  | inl dropped ↦ elim (Bool-cases (is_same j field)) [
    | inl both ↦ absurd (differ (same_number j k field both dropped))
    | inr other ↦ rw (dropped, other) (value-without j k context differ)
  ]
  | inr kept ↦ elim (Bool-cases (is_same j field)) [
    | inl found ↦ rw (kept, found) refl
    | inr other ↦ rw (kept, other) (value-without j k context differ)
  ]
]

-- A context that is used no more, and from which a kind of field was dropped, has no field of that kind, and gives the same field
-- as before for every other kind.
pub drop-kinds :
    {E : Type 0} (j k : Kind) (context : Context E)
    → kind_number j ≢ kind_number k
    → (has_value k (drop k context) ≡ false)
      × (field_value j (drop k context) ≡ field_value j context)
unfolding drop
drop-kinds j k context differ =
    rw (drop_kept-without k [] context)
      (has_value-without k context, value-without j k context differ)
