-- ===== src/Sync/Plan/Settle.antt =====
-- conflict.go and sqlite/repository.go: what a planned update of a figure leaves to be planned.
use personal_context.Base.{
  ◌≡◌, ◌≢◌, ◌∙◌, Bool, not, ◌&&◌, Option, none, some, [], ◌==◌, list_eq, nat_eq, ==-refl, ≢→==,
  arith, ok, passed, map_err-eq-ok,
}
use personal_context.Text.{Text, codes}
use personal_context.Repository.Types.{RecordFigure}
use personal_context.Repository.Inputs.{UpdateRecordFigureInput}
use personal_context.Repository.AssetKey.{validate_record_asset_key}
use personal_context.Repository.AssetKey.Laws.{validate_record_asset_key-ne-nil}
use personal_context.Repository.Figures.{
  FigureTable, patch_figure, patch_option, select_figure, update_record_figure,
}
use personal_context.Repository.Figures.Laws.{get-patch_figure}
use personal_context.SyncEngine.Resolve.{is_set}
use personal_context.Sync.Children.{
  figures, asset_key, check_figure, figure_differs, nullable_string_value,
}

-- The row has alternative text and the desired one has none.
abbrev pub is_clearing : RecordFigure → RecordFigure → Bool
is_clearing existing desired =
    not (nullable_string_value existing.alt_text == []) && not (is_set desired.alt_text)

abbrev alt_differs : Option Text → Option Text → Bool
alt_differs a b = not (nullable_string_value a == nullable_string_value b)

alt_differs-patch :
    (new old : Option Text)
    → alt_differs (patch_option new old) new
      ≡ (not (nullable_string_value old == []) && not (is_set new))
unfolding nullable_string_value
alt_differs-patch none old = ground arith
alt_differs-patch (some a) old = rw (==-refl a) (ground arith)

check_figure-ne-nil :
    (rid : Text) (desired : RecordFigure)
    → check_figure rid desired ≡ passed
    → (desired.filename ≢ []) × (desired.s3_key ≢ [])
unfolding check_figure
check_figure-ne-nil rid desired h =
    validate_record_asset_key-ne-nil (codes "figures") rid desired.filename desired.s3_key (
      map_err-eq-ok asset_key
        (validate_record_asset_key (codes "figures") rid desired.filename desired.s3_key) h)

-- After the planned update of a figure to a desired one that passes the checks, the stored figure
-- has the desired filename, and it still differs from the desired one exactly if that one should
-- have cleared an alternative text: the update keeps the old text.
pub figure_differs-update_record_figure :
    (rid : Text) (existing desired : RecordFigure) (t t' : FigureTable)
    → check_figure rid desired ≡ passed
    → select_figure t.rows existing.id ≡ ok existing
    → update_record_figure (figures.update_input existing desired) t ≡ ok t'
    → (f : RecordFigure) × (select_figure t'.rows existing.id ≡ ok f)
      × (f.filename ≡ desired.filename)
      × (figure_differs f desired ≡ is_clearing existing desired)
unfolding figure_differs
figure_differs-update_record_figure rid existing desired t t' checked found h =
    let (named, keyed) = check_figure-ne-nil rid desired checked in
    let input : UpdateRecordFigureInput = figures.update_input existing desired in
    (
      patch_figure input desired.s3_key existing,
      get-patch_figure input t t' existing.id keyed h ∙ rw (==-refl existing.id, found),
      rw (≢→== desired.filename [] named),
      rw (≢→== desired.s3_key [] keyed, ==-refl desired.s3_key)
          (alt_differs-patch desired.alt_text existing.alt_text),
    )
