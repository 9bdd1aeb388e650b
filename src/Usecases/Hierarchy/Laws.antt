-- ===== src/Usecases/Hierarchy/Laws.antt =====
-- To bind a project to a board loses nothing of it.
use dop_api.Base.{◌∙◌, sym, ◌≡◌, inl, inr, String, some, nat_eq, string_eq, arith}
use dop_api.Platform.Context.{Scope}
use dop_api.Platform.Errors.{done, Result-cases}
use dop_api.Platform.Decorator.{managers}
use dop_api.Platform.Decorator.Laws.{IsAllowed, unknown, accountless, unfit, guarded_outcome}
use dop_api.Coreclient.Client.{Outside, Metadata, metadata, call}
use dop_api.Usecases.Hierarchy.Models.{PbProject, TaskManagerBinding, ProjectSummary, HierarchyStub}
use dop_api.Usecases.Hierarchy.{project_of, task_manager_of, rebind, bind_task_manager}

module _ {W : Type 0} (out : Outside W) (stub : HierarchyStub W) (s : Scope) (w : W) where
  -- The two calls of a binding: the project that the core gave, and the same one sent back with
  -- nothing but its task manager changed.
  pub record IsRebound (project_id : String) (body : TaskManagerBinding) (p : ProjectSummary)
      (w' : W) : Type 0 where
    pub current : PbProject
    pub answer : PbProject
    pub md : Metadata
    pub before : W
    pub later : Metadata
    pub between : W
    pub read : (stub.get_project md project_id before).0 ≡ done current
    pub sent :
        stub.update_project later
          (record {
            id = current.id;
            workspace = current.workspace;
            name = current.name;
            description = current.description;
            repos = current.repos;
            task_manager = some (task_manager_of body);
            resources = current.resources;
            rules = current.rules;
            audit = current.audit;
          })
          between
        ≡ (done answer, w')
    pub shown : p ≡ project_of answer

  rebind-IsRebound :
      (project_id : String) (body : TaskManagerBinding) (p : ProjectSummary) (w' : W)
      → rebind out stub project_id body s w ≡ (done p, w')
      → IsRebound project_id body p w'
  unfolding rebind call
  rebind-IsRebound project_id body p w' e =
      let first = metadata out s w in
      elim (Result-cases first.0) [
        | inr (exc, failed) ↦ absurd (ground arith)
        | inl (md, made) ↦
            let second = stub.get_project md project_id first.1 in
            elim (Result-cases second.0) [
              | inr (exc, failed) ↦ absurd (ground arith)
              | inl (current, came) ↦
                  let third = metadata out s second.1 in
                  elim (Result-cases third.0) [
                    | inr (exc, failed) ↦ absurd (ground arith)
                    | inl (later, made_again) ↦
                        let fourth =
                          stub.update_project later
                            (record current { task_manager = some (task_manager_of body) })
                            third.1 in
                        elim (Result-cases fourth.0) [
                          | inr (exc, failed) ↦ absurd (ground arith)
                          | inl (answer, updated) ↦ record {
                            current = current;
                            answer = answer;
                            md = md;
                            before = first.1;
                            later = later;
                            between = third.1;
                            read = came;
                            sent = ground arith;
                            shown = ground arith;
                          }
                        ]
                  ]
            ]
      ]

  -- A binding that is answered was made by an owner or admin; the core was sent the project that
  -- it had just given, whole, with only the task manager replaced, and the answer is shown.
  bind_task_manager-IsRebound :
      (project_id : String) (body : TaskManagerBinding) (p : ProjectSummary) (w' : W)
      → bind_task_manager out stub project_id body s w ≡ (done p, w')
      → IsAllowed managers s × IsRebound project_id body p w'
  unfolding bind_task_manager
  bind_task_manager-IsRebound project_id body p w' e =
      elim (guarded_outcome managers (rebind out stub project_id body) s w) [
        | inl (allowed, runs) ↦ (allowed, rebind-IsRebound project_id body p w' (sym runs ∙ e))
        | inr (unknown _ refused) ↦ absurd (ground (arith, refused))
        | inr (accountless _ _ _ refused) ↦ absurd (ground (arith, refused))
        | inr (unfit _ _ _ _ refused) ↦ absurd (ground (arith, refused))
      ]
