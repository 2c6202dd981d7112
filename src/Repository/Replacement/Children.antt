-- ===== src/Repository/Replacement/Children.antt =====
-- repository.go: the rows of a child table when those of one record are replaced, for figures and
-- for data files alike.
use mathlib.Core.List.{append-nil}
use personal_context.Base.{
  ◌≡◌, ◌≢◌, refl, sym, ap, ◌∙◌, true, false, List, [], ◌∷◌, ◌++◌, map, ◌==◌, list_eq, nat_eq, ==→≡,
  ≢→==, ≡→==, if◌then◌else◌, Bool-cases, inl, inr,
}
use personal_context.Text.{Text}

-- The rows of a record, and the rows without them.
pub record ChildTable (A : Type 0) : Type 0 where
  pub owner : A → Text
  pub of_record : Text → List A → List A
  pub without : Text → List A → List A
  pub of_nil : (rid : Text) → of_record rid [] ≡ []
  pub of_cons :
      (rid : Text) (a : A) (rows : List A)
      → of_record rid (a ∷ rows)
        ≡ (if owner a == rid then a ∷ of_record rid rows else of_record rid rows)
  pub without_nil : (rid : Text) → without rid [] ≡ []
  pub without_cons :
      (rid : Text) (a : A) (rows : List A)
      → without rid (a ∷ rows) ≡ (if owner a == rid then without rid rows else a ∷ without rid rows)

-- Every input belongs to the record.
abbrev pub AllOwned : {I : Type 0} → (I → Text) → Text → List I → Type 0
AllOwned owner_of rid [] = Unit
AllOwned owner_of rid (i ∷ is) = (owner_of i ≡ rid) × AllOwned owner_of rid is

module _ {A : Type 0} (t : ChildTable A) where
  of_record-++ :
      (rid : Text) (rows news : List A)
      → t.of_record rid (rows ++ news) ≡ t.of_record rid rows ++ t.of_record rid news
  of_record-++ rid [] news = rw (t.of_nil rid) refl
  of_record-++ rid (a ∷ rows) news = elim (Bool-cases (t.owner a == rid)) [
    | inl e ↦
        rw (t.of_cons rid a (rows ++ news), t.of_cons rid a rows, e)
          (ap (λ rest. a ∷ rest) (of_record-++ rid rows news))
    | inr e ↦
        rw (t.of_cons rid a (rows ++ news), t.of_cons rid a rows, e) (of_record-++ rid rows news)
  ]

  of_record-without : (rid : Text) (rows : List A) → t.of_record rid (t.without rid rows) ≡ []
  of_record-without rid [] = rw (t.without_nil rid) (t.of_nil rid)
  of_record-without rid (a ∷ rows) = elim (Bool-cases (t.owner a == rid)) [
    | inl e ↦ rw (t.without_cons rid a rows, e) (of_record-without rid rows)
    | inr e ↦
        rw (t.without_cons rid a rows, e)
          (rw (t.of_cons rid a (t.without rid rows), e) (of_record-without rid rows))
  ]

  of_record-others :
      (rid other : Text) (rows : List A)
      → other ≢ rid
      → t.of_record other (t.without rid rows) ≡ t.of_record other rows
  of_record-others rid other [] differs = rw (t.without_nil rid) refl
  of_record-others rid other (a ∷ rows) differs = elim (Bool-cases (t.owner a == rid)) [
    | inl e ↦
        let away : (t.owner a == other) ≡ false =
          ≢→== (t.owner a) other (λ q. differs (sym q ∙ ==→≡ (t.owner a) rid e)) in
        rw (t.without_cons rid a rows, e)
          (rw (t.of_cons other a rows, away) (of_record-others rid other rows differs))
    | inr e ↦
        rw (t.without_cons rid a rows, e)
          (rw (t.of_cons other a (t.without rid rows), t.of_cons other a rows)
            (ap (λ rest. if t.owner a == other then a ∷ rest else rest)
              (of_record-others rid other rows differs)))
  ]

  module _ {I : Type 0} (input : A → I) (owner_of : I → Text)
      (kept : (a : A) → owner_of (input a) ≡ t.owner a) where
    owners :
        (rid : Text) (i : I) (is : List I) (a : A) (news : List A)
        → map input (a ∷ news) ≡ i ∷ is
        → owner_of i ≡ rid
        → t.owner a ≡ rid
    owners rid i is a news made mine =
        let same : input a ≡ i = cc made in sym (kept a) ∙ ap owner_of same ∙ mine

    of_record-owned :
        (rid : Text) (is : List I) (news : List A)
        → map input news ≡ is
        → AllOwned owner_of rid is
        → t.of_record rid news ≡ news
    of_record-owned rid is [] made owned = t.of_nil rid
    of_record-owned rid [] (a ∷ news) made owned = cc made
    of_record-owned rid (i ∷ is) (a ∷ news) made (mine, owned) =
        let others : map input news ≡ is = cc made in
        let e : (t.owner a == rid) ≡ true =
          ≡→== (t.owner a) rid (owners rid i is a news made mine) in
        rw (t.of_cons rid a news, e)
          (ap (λ rest. a ∷ rest) (of_record-owned rid is news others owned))

    of_record-foreign :
        (rid other : Text) (is : List I) (news : List A)
        → other ≢ rid
        → map input news ≡ is
        → AllOwned owner_of rid is
        → t.of_record other news ≡ []
    of_record-foreign rid other is [] differs made owned = t.of_nil other
    of_record-foreign rid other [] (a ∷ news) differs made owned = cc made
    of_record-foreign rid other (i ∷ is) (a ∷ news) differs made (mine, owned) =
        let others : map input news ≡ is = cc made in
        let e : (t.owner a == other) ≡ false =
          ≢→== (t.owner a) other (λ q. differs (sym q ∙ owners rid i is a news made mine)) in
        rw (t.of_cons other a news, e) (of_record-foreign rid other is news differs others owned)

    others-kept :
        (rid other : Text) (is : List I) (old rows news : List A)
        → rows ≡ t.without rid old ++ news
        → map input news ≡ is
        → AllOwned owner_of rid is
        → other ≢ rid
        → t.of_record other rows ≡ t.of_record other old
    others-kept rid other is old rows news all made owned differs =
        ap (t.of_record other) all
        ∙ of_record-++ other (t.without rid old) news
        ∙ ap (λ l. t.of_record other (t.without rid old) ++ l)
            (of_record-foreign rid other is news differs made owned)
        ∙ append-nil (t.of_record other (t.without rid old))
        ∙ of_record-others rid other old differs

    -- The rows of the record are those of the inputs, and the other records have their old ones.
    pub children-replaced :
        (rid : Text) (is : List I) (old rows news : List A)
        → rows ≡ t.without rid old ++ news
        → map input news ≡ is
        → AllOwned owner_of rid is
        → (map input (t.of_record rid rows) ≡ is)
          × ((other : Text)
              → t.of_record other rows
                ≡ (if other == rid then t.of_record rid rows else t.of_record other old))
    children-replaced rid is old rows news all made owned = (
      ap (λ l. map input (t.of_record rid l)) all
          ∙ ap (map input) (of_record-++ rid (t.without rid old) news)
          ∙ ap (λ l. map input (l ++ t.of_record rid news)) (of_record-without rid old)
          ∙ ap (map input) (of_record-owned rid is news made owned)
          ∙ made,
      λ other. elim (Bool-cases (other == rid)) [
        | inl e ↦ rw (e, ==→≡ other rid e) refl
        | inr e ↦ rw e (
            others-kept rid other is old rows news all made owned
              (λ q. cc (sym e ∙ ≡→== other rid q)))
      ],
    )
