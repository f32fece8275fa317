-- ===== src/Memory/Cases.antt =====
-- Case runs, decision points and artifacts. A row of another tenant is "not found".
use victoria.Prelude.{String, none, some, List, ◌==◌, ◌&&◌, if◌then◌else◌}
use victoria.Exec.{ok, err, not_found, Exec}
use victoria.GoMap.{get, put, values, select}
use victoria.Sort.{text_less, sort_by}
use victoria.Domain.{CaseRun, DecisionPoint, Artifact}
use victoria.Memory.{Store}

unfoldable pub create_case_run : CaseRun → Exec Store (Unit {0})
create_case_run run s = (ok tt, record s { case_runs = put run.id run s.case_runs })

unfoldable pub update_case_run_status : String → String → String → Exec Store (Unit {0})
update_case_run_status tenant_id case_run_id status s = elim (get case_run_id s.case_runs) [
  | none ↦ (err not_found, s)
  | some run ↦
      if run.tenant_id == tenant_id
      then (
        ok tt,
        record s { case_runs = put case_run_id (record run { status = status }) s.case_runs },
      )
      else (err not_found, s)
]

unfoldable pub get_case_run : String → String → Exec Store CaseRun
get_case_run tenant_id case_run_id s = elim (get case_run_id s.case_runs) [
  | none ↦ (err not_found, s)
  | some run ↦ if run.tenant_id == tenant_id then (ok run, s) else (err not_found, s)
]

unfoldable pub create_decision_point : DecisionPoint → Exec Store (Unit {0})
create_decision_point point s =
    (ok tt, record s { decision_pts = put point.id point s.decision_pts })

unfoldable pub update_decision_point_status : String → String → String → Exec Store (Unit {0})
update_decision_point_status tenant_id decision_point_id status s =
    elim (get decision_point_id s.decision_pts) [
      | none ↦ (err not_found, s)
      | some point ↦
          if point.tenant_id == tenant_id
          then (
            ok tt,
            record s {
              decision_pts =
                  put decision_point_id (record point { status = status }) s.decision_pts;
            },
          )
          else (err not_found, s)
    ]

unfoldable pub get_decision_point : String → String → Exec Store DecisionPoint
get_decision_point tenant_id decision_point_id s = elim (get decision_point_id s.decision_pts) [
  | none ↦ (err not_found, s)
  | some point ↦ if point.tenant_id == tenant_id then (ok point, s) else (err not_found, s)
]

unfoldable pub create_artifact : Artifact → Exec Store (Unit {0})
create_artifact artifact s = (ok tt, record s { artifacts = put artifact.id artifact s.artifacts })

unfoldable pub list_artifacts : String → String → Exec Store (List Artifact)
list_artifacts tenant_id case_run_id s = (
  ok (
      sort_by (λ (a b : Artifact). text_less a.id b.id)
        (select (λ (a : Artifact). a.tenant_id == tenant_id && a.case_run_id == case_run_id)
          (values s.artifacts))),
  s,
)
