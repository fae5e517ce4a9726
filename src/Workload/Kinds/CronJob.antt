-- ===== src/Workload/Kinds/CronJob.antt =====
-- pkg/primitives/cronjob/mutator.go: the plans of a CronJob, whose pod template is in its job template.
use operator_component_frame.Prelude.{refl, Option, List, [], ok}
use operator_component_frame.Prelude.Results.{◌>>=◌, Edit, run_edits}
use operator_component_frame.Pods.{ObjectMeta}
use operator_component_frame.Editors.Specs.Job.{JobSpec}
use operator_component_frame.Editors.Specs.CronJob.{CronJobSpec}
use operator_component_frame.Workload.{
  PodPlan, apply_to_template, apply_to_pod_spec, apply_containers, apply_init_containers,
  apply_presence_ops, apply_container_edits,
}
use operator_component_frame.Workload.Plans.{no_pod_plan, add_edit}
use operator_component_frame.Workload.Mutators.{Kind}
use operator_component_frame.Workload.Kinds.{WorkloadObject}
use operator_component_frame.Workload.Kinds.Job.{at_template}

-- `featurePlan`
pub record CronJobPlan : Type 0 where
  pub metadata_edits : List (Edit ObjectMeta)
  pub cron_job_spec_edits : List (Edit CronJobSpec)
  pub job_spec_edits : List (Edit JobSpec)
  pub pods : PodPlan

abbrev pub no_cron_job_plan : CronJobPlan
no_cron_job_plan = record {
  metadata_edits = [];
  cron_job_spec_edits = [];
  job_spec_edits = [];
  pods = no_pod_plan;
}

-- `EditObjectMetadata`
unfoldable pub edit_object_metadata : Option (Edit ObjectMeta) → CronJobPlan → CronJobPlan
unfolding add_edit
edit_object_metadata edit p = record p { metadata_edits = add_edit edit p.metadata_edits }

-- `EditCronJobSpec`
unfoldable pub edit_cron_job_spec : Option (Edit CronJobSpec) → CronJobPlan → CronJobPlan
unfolding add_edit
edit_cron_job_spec edit p = record p { cron_job_spec_edits = add_edit edit p.cron_job_spec_edits }

-- `EditJobSpec`
unfoldable pub edit_job_spec : Option (Edit JobSpec) → CronJobPlan → CronJobPlan
unfolding add_edit
edit_job_spec edit p = record p { job_spec_edits = add_edit edit p.job_spec_edits }

-- an edit of the job spec in the job template
unfoldable pub at_job_spec : Edit JobSpec → Edit CronJobSpec
at_job_spec edit s = edit s.job_template.spec >>= λ j.
    ok (record s { job_template = record s.job_template { spec = j } })

-- `applyPlan`
unfoldable pub apply_plan : CronJobPlan → Edit (WorkloadObject CronJobSpec)
unfolding run_edits apply_to_template at_template at_job_spec
apply_plan p o = run_edits p.metadata_edits o.metadata >>= λ m.
    run_edits p.cron_job_spec_edits o.spec
    >>= at_job_spec (λ j. run_edits p.job_spec_edits j >>= at_template (apply_to_template p.pods))
    >>= λ s. ok (record { metadata = m; spec = s })

unfoldable pub cron_job_kind : Kind (WorkloadObject CronJobSpec) CronJobPlan
unfolding apply_plan at_template at_job_spec apply_to_template apply_to_pod_spec apply_containers
    apply_init_containers apply_presence_ops apply_container_edits run_edits
cron_job_kind = record {
  no_plan = no_cron_job_plan;
  apply_plan = apply_plan;
  apply_plan-no_plan = λ o. refl;
}
