-- ===== src/Sync/Apply/Keeps.antt =====
-- service.go: the application of figures and data files leaves the records as they are.
use personal_context.Base.{
  refl, Bool, true, false, List, ◌==◌, nat_eq, list_eq, inl, inr, Bool-cases,
}
use personal_context.Text.{Text}
use personal_context.Repository.Types.{RecordFigure, RecordDataFile}
use personal_context.Repository.Inputs.{UpdateRecordDataFileInput}
use personal_context.Repository.Interface.{Repository}
use personal_context.Sync.Outside.{Outside}
use personal_context.Sync.Run.{stored, planned, local_file_required}
use personal_context.Sync.Run.Keeps.{
  Order, Keeps, bind-Keeps, each-Keeps, writing-Keeps, pure_call-Keeps, give-Keeps, fail-Keeps,
}
use personal_context.Sync.World.{World, on_local, on_cloud, repository_on, looking}
use personal_context.Sync.Laws.{SameRecords, Writes}
use personal_context.Sync.Plan.{plan_figure_reconciliation, plan_data_file_reconciliation}
use personal_context.Sync.Files.Keeps.{
  acting-Keeps, looking-Keeps, upload_data_file_if_present-Keeps, upload_desired_figure_files-Keeps,
  download_desired_figure_files-Keeps, remove_local_figure_file_if_present-Keeps,
  remove_local_data_file_if_present-Keeps,
}
use personal_context.Sync.Apply.{
  at_local, at_cloud, delete_replaced, update_cloud_data_file, apply_figures_to_cloud,
  apply_data_files_to_cloud, apply_figures_to_local, apply_data_files_to_local,
}

module _ {L C O : Type 0} (local_repo : Repository L) (cloud_repo : Repository C)
    (os : Outside O) where
  abbrev cloud_side : Repository (World L C O)
  cloud_side = at_cloud local_repo cloud_repo os

  abbrev local_side : Repository (World L C O)
  local_side = at_local local_repo cloud_repo os

  pub outside_same_local :
      (w : World L C O) (o : O) → SameRecords local_side w (record w { outside = o })
  unfolding SameRecords on_local repository_on
  outside_same_local w o id = refl

  pub outside_same_cloud :
      (w : World L C O) (o : O) → SameRecords cloud_side w (record w { outside = o })
  unfolding SameRecords on_cloud repository_on
  outside_same_cloud w o id = refl

  module _ {R : World L C O → World L C O → Type 0} (o : Order R)
      (free : (w : World L C O) (outside : O) → R w (record w { outside = outside }))
      (laws : Writes R local_side) where
    pub apply_figures_to_local-Keeps :
        (rid : Text) (desired existing : List RecordFigure)
        → Keeps R (apply_figures_to_local local_repo cloud_repo os rid desired existing)
    unfolding apply_figures_to_local
    apply_figures_to_local-Keeps rid desired existing =
        bind-Keeps o (download_desired_figure_files-Keeps o free os rid desired) (λ _.
          bind-Keeps o (pure_call-Keeps o planned (plan_figure_reconciliation rid existing desired))
            (λ plan.
              bind-Keeps o
                (each-Keeps o plan.creates _ (λ c. writing-Keeps o stored _ (laws.create_figure c)))
                (λ _.
                  bind-Keeps o
                    (each-Keeps o plan.updates _
                      (λ u. writing-Keeps o stored _ (laws.update_figure u)))
                    (λ _. each-Keeps o plan.delete_ids _ (λ id.
                      bind-Keeps o (writing-Keeps o stored _ (laws.delete_figure id))
                        (λ _. remove_local_figure_file_if_present-Keeps o free os rid _))))))

    pub apply_data_files_to_local-Keeps :
        (rid : Text) (desired existing : List RecordDataFile)
        → Keeps R (apply_data_files_to_local local_repo cloud_repo os rid desired existing)
    unfolding apply_data_files_to_local
    apply_data_files_to_local-Keeps rid desired existing =
        let removal = remove_local_data_file_if_present-Keeps o free os rid in
        bind-Keeps o
          (pure_call-Keeps o planned (plan_data_file_reconciliation rid existing desired))
          (λ plan.
            bind-Keeps o
              (each-Keeps o plan.creates _ (λ c.
                bind-Keeps o (writing-Keeps o stored _ (laws.create_data_file c))
                  (λ _. removal c.filename)))
              (λ _.
                bind-Keeps o
                  (each-Keeps o plan.updates _ (λ u.
                    bind-Keeps o (writing-Keeps o stored _ (laws.update_data_file u))
                      (λ _. removal u.filename)))
                  (λ _. each-Keeps o plan.delete_ids _ (λ id.
                    bind-Keeps o (writing-Keeps o stored _ (laws.delete_data_file id))
                      (λ _. removal _)))))

  module _ {R : World L C O → World L C O → Type 0} (o : Order R)
      (free : (w : World L C O) (outside : O) → R w (record w { outside = outside }))
      (laws : Writes R cloud_side) where
    delete_replaced-Keeps :
        (old new : Text) → Keeps R (delete_replaced local_repo cloud_repo os old new)
    delete_replaced-Keeps old new = elim (Bool-cases (old == new)) [
      | inl e ↦ rw e (give-Keeps o tt)
      | inr e ↦ rw e (acting-Keeps o free (os.delete old))
    ]

    pub apply_figures_to_cloud-Keeps :
        (rid : Text) (desired existing : List RecordFigure)
        → Keeps R (apply_figures_to_cloud local_repo cloud_repo os rid desired existing)
    unfolding apply_figures_to_cloud
    apply_figures_to_cloud-Keeps rid desired existing =
        bind-Keeps o (upload_desired_figure_files-Keeps o free os rid desired) (λ _.
          bind-Keeps o (pure_call-Keeps o planned (plan_figure_reconciliation rid existing desired))
            (λ plan.
              bind-Keeps o
                (each-Keeps o plan.creates _ (λ c. writing-Keeps o stored _ (laws.create_figure c)))
                (λ _.
                  bind-Keeps o
                    (each-Keeps o plan.updates _ (λ u.
                      bind-Keeps o (writing-Keeps o stored _ (laws.update_figure u))
                        (λ _. delete_replaced-Keeps _ u.s3_key)))
                    (λ _. each-Keeps o plan.delete_ids _ (λ id.
                      bind-Keeps o (writing-Keeps o stored _ (laws.delete_figure id))
                        (λ _. acting-Keeps o free _))))))

    update_cloud_data_file-Keeps :
        (u : UpdateRecordDataFileInput) (old_key path : Text) (uploaded : Bool)
        → Keeps R (update_cloud_data_file local_repo cloud_repo os u old_key path uploaded)
    update_cloud_data_file-Keeps u old_key path true =
        bind-Keeps o (writing-Keeps o stored _ (laws.update_data_file u))
          (λ _. delete_replaced-Keeps old_key u.s3_key)
    update_cloud_data_file-Keeps u old_key path false = elim (Bool-cases (old_key == u.s3_key)) [
      | inl e ↦
          rw e (
            bind-Keeps o (writing-Keeps o stored _ (laws.update_data_file u))
              (λ _. give-Keeps o tt))
      | inr e ↦ rw e (fail-Keeps o (local_file_required path old_key u.s3_key))
    ]

    pub apply_data_files_to_cloud-Keeps :
        (rid : Text) (desired existing : List RecordDataFile)
        → Keeps R (apply_data_files_to_cloud local_repo cloud_repo os rid desired existing)
    unfolding apply_data_files_to_cloud
    apply_data_files_to_cloud-Keeps rid desired existing =
        let upload = upload_data_file_if_present-Keeps o free os in
        let resolve : (name : Text) → Keeps R (looking (os.resolve_data_file_path rid name)) =
          λ name. looking-Keeps o free (os.resolve_data_file_path rid name) in
        bind-Keeps o
          (pure_call-Keeps o planned (plan_data_file_reconciliation rid existing desired))
          (λ plan.
            bind-Keeps o
              (each-Keeps o plan.creates _ (λ c. bind-Keeps o (resolve c.filename) (λ path.
                bind-Keeps o (upload c.s3_key path)
                  (λ _. writing-Keeps o stored _ (laws.create_data_file c)))))
              (λ _.
                bind-Keeps o
                  (each-Keeps o plan.updates _ (λ u. bind-Keeps o (resolve u.filename) (λ path.
                    bind-Keeps o (upload u.s3_key path)
                      (λ uploaded. update_cloud_data_file-Keeps u _ path uploaded))))
                  (λ _. each-Keeps o plan.delete_ids _ (λ id.
                    bind-Keeps o (writing-Keeps o stored _ (laws.delete_data_file id))
                      (λ _. acting-Keeps o free _)))))
