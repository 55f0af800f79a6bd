-- ===== src/Control/Reuse.antt =====
-- What `reusable_wheels` of scripts/ci/ppu_ci_command.py promises of the build that it finds.
use mathlib.Core.Option.{some-injective}
use mathlib.Core.Path.{subst}
use vllm_sail.Base.{
  ℕ, String, Bool, true, false, Option, none, some, ◌≡◌, ◌≢◌, ◌⊎◌, refl, ◌∙◌, inl, inr, ap,
}
use vllm_sail.Base.{
  List, [], ◌∷◌, ◌==◌, ==_true, string_eq, nat_eq, any, all, take, if◌then◌else◌, Bool-cases,
}
use vllm_sail.Control.Outcome.{
  done, failed, answer, expect, then_done, done-injective, expect-answer,
}
use mathlib.Core.List.{Memᴰ}
use mathlib.Core.List.Memᴰ.{head, tail}
use vllm_sail.Base.{◌&&◌, ltb, both_true}
use vllm_sail.Control.Found.{is_dispatched, find_runs-Mem, is_run_of-is_dispatched, take-Mem}
use vllm_sail.Control.Runs.{Run, find_runs}
use vllm_sail.Control.Wheels.{
  FileChange, Comparison, Artifact, Builds, is_candidate, is_wheels, paths_of, is_readable,
  is_ignored, usable_files, ignores_files, source_of, is_same_build, reuse, reusable_wheels,
}

-- A run of the pages, of the workflow.
abbrev IsListed : Builds → List Run → Run → Type 0
IsListed b pages r = Memᴰ r pages × (is_dispatched b.repo b.default_branch r ≡ true)

-- The commit's comparison with the source lists only files, by both names, that the wheels ignore.
pub record OnlyIgnored (b : Builds) (source : String) : Type 0 where
  pub comparison : Comparison
  pub files : List FileChange
  pub comparison_is : b.compare source ≡ answer comparison
  pub files_are : usable_files source comparison ≡ some files
  pub ignored : all (λ f. all is_ignored (paths_of f)) files ≡ true

-- A build whose wheels serve the commit.
pub record IsReusable (b : Builds) (sha : String) (id : ℕ) (source : String) : Type 0 where
  pub pages : List Run
  pub build : Run
  pub artifacts : List Artifact
  pub listed : b.runs ≡ answer pages
  pub is_returned : Memᴰ build pages
  pub of_workflow : is_dispatched b.repo b.default_branch build ≡ true
  pub id_is : build.id ≡ id
  pub source_is : source_of build.title ≡ source
  pub ended : build.status ≡ "completed"
  pub successful : build.conclusion ≡ "success"
  pub revision : build.run_head_sha ≡ b.github_sha
  pub is_earlier : ltb build.id b.github_run_id ≡ true
  pub artifacts_are : b.artifacts id ≡ answer artifacts
  pub has_wheels : any (is_wheels b id) artifacts ≡ true
  pub same : (source ≡ sha) ⊎ OnlyIgnored b source

nothing : done false ≢ done true
nothing h = cc

readable : (a b : Bool) → (if a then done b else failed) ≡ done true → b ≡ true
readable true b h = done-injective b true h
readable false b h = cc

ignores_files-all :
    (o : Option (List FileChange))
    → ignores_files o ≡ done true
    → (fs : List FileChange) × (o ≡ some fs) × (all (λ f. all is_ignored (paths_of f)) fs ≡ true)
unfolding ignores_files
ignores_files-all none h = cc
ignores_files-all (some fs) h = (fs, refl, readable (all is_readable fs) _ h)

is_same_build-same :
    (b : Builds) (sha source : String)
    → is_same_build b sha source ≡ done true
    → (source ≡ sha) ⊎ OnlyIgnored b source
unfolding is_same_build
is_same_build-same b sha source h = elim (Bool-cases (source == sha)) [
  | inl same ↦ inl (==_true source sha same)
  | inr other ↦
      let (c, e, h1) = then_done (expect (b.compare source)) _ (rw other at h) in
      let (fs, e2, ok') = ignores_files-all (usable_files source c) h1 in
      inr (record {
        comparison = c;
        files = fs;
        comparison_is = expect-answer (b.compare source) c e;
        files_are = e2;
        ignored = ok';
      })
]

-- The tests of a candidate one by one.
is_candidate_lem :
    (b : Builds) (r : Run)
    → is_candidate b r ≡ true
    → (r.status ≡ "completed")
      × (r.conclusion ≡ "success")
      × (r.run_head_sha ≡ b.github_sha)
      × (ltb r.id b.github_run_id ≡ true)
unfolding is_candidate
is_candidate_lem b r h =
    let ended = r.status == "completed" in
    let successful = r.conclusion == "success" in
    let same = r.run_head_sha == b.github_sha in
    let (h1, earlier) =
      both_true (ended && successful && same && ltb 0 r.id) (ltb r.id b.github_run_id) h in
    let (h2, _) = both_true (ended && successful && same) (ltb 0 r.id) h1 in
    let (h3, revision) = both_true (ended && successful) same h2 in
    let (status, conclusion) = both_true ended successful h3 in
    (
      ==_true r.status "completed" status,
      ==_true r.conclusion "success" conclusion,
      ==_true r.run_head_sha b.github_sha revision,
      earlier,
    )

found :
    (b : Builds) (sha : String) (pages : List Run) (r : Run) (artifacts : List Artifact)
    → b.runs ≡ answer pages
    → IsListed b pages r
    → is_candidate b r ≡ true
    → b.artifacts r.id ≡ answer artifacts
    → (if any (is_wheels b r.id) artifacts
        then is_same_build b sha (source_of r.title)
        else done false)
      ≡ done true
    → IsReusable b sha r.id (source_of r.title)
found b sha pages r artifacts listed (returned, dispatched) candidate e h =
    elim (Bool-cases (any (is_wheels b r.id) artifacts)) [
      | inr no' ↦ absurd (nothing (rw no' at h))
      | inl wheels ↦ record {
        build = r;
        artifacts = artifacts;
        id_is = refl;
        source_is = refl;
        pages = pages;
        listed = listed;
        is_returned = returned;
        of_workflow = dispatched;
        ended = (is_candidate_lem b r candidate).0;
        successful = (is_candidate_lem b r candidate).1;
        revision = (is_candidate_lem b r candidate).2;
        is_earlier = (is_candidate_lem b r candidate).3;
        artifacts_are = e;
        has_wheels = wheels;
        same = is_same_build-same b sha (source_of r.title) (rw wheels at h);
      }
    ]

reuse-IsReusable :
    (b : Builds) (sha : String) (pages rs : List Run) (id : ℕ) (source : String)
    → b.runs ≡ answer pages
    → ((r : Run) → Memᴰ r rs → IsListed b pages r)
    → reuse b sha rs ≡ done (some (id, source))
    → IsReusable b sha id source
unfolding reuse
reuse-IsReusable b sha pages [] id source listed all h = cc
reuse-IsReusable b sha pages (r ∷ rs) id source listed all h =
    elim (Bool-cases (is_candidate b r)) [
      | inr no' ↦
          reuse-IsReusable b sha pages rs id source listed (λ x m. all x (tail m)) (rw no' at h)
      | inl candidate ↦
          let (artifacts, e1, h1) = then_done (expect (b.artifacts r.id)) _ (rw candidate at h) in
          let (same, e2, h2) =
            then_done
              (if any (is_wheels b r.id) artifacts
                then is_same_build b sha (source_of r.title)
                else done false)
              _ h1 in
          elim (Bool-cases same) [
            | inr no' ↦
                reuse-IsReusable b sha pages rs id source listed (λ x m. all x (tail m))
                  (rw no' at h2)
            | inl yes' ↦
                let pair =
                  some-injective (r.id, source_of r.title) (id, source)
                    (done-injective _ _ (rw yes' at h2)) in
                subst (λ (q : ℕ × String). IsReusable b sha q.0 q.1) pair
                  (found b sha pages r artifacts listed (all r (head refl)) candidate
                    (expect-answer (b.artifacts r.id) artifacts e1) (e2 ∙ ap done yes'))
          ]
    ]

-- Where `reusable_wheels` names a build and its source, the build is one of the runs that GitHub
-- returned, dispatched for the workflow on the default branch, earlier than this one, completed
-- with success and of the same workflow revision, with an artifact of its wheels that has not
-- expired; and its source is the commit itself, or GitHub's comparison of the two is usable and
-- lists only files that are, under their new and their old names, documents, tests, workflows or
-- the controller.
pub reusable_wheels-IsReusable :
    (b : Builds) (sha : String) (id : ℕ) (source : String)
    → reusable_wheels b sha ≡ done (some (id, source))
    → IsReusable b sha id source
unfolding reusable_wheels
reusable_wheels-IsReusable b sha id source h =
    let (pages, read, h1) = then_done (expect b.runs) _ h in
    let runs = find_runs b.repo b.default_branch none none pages in
    reuse-IsReusable b sha pages (take 20 runs) id source (expect-answer b.runs pages read)
      (λ r m.
        let (returned, fits) =
          find_runs-Mem b.repo b.default_branch none none r pages (take-Mem 20 r runs m) in
        (returned, is_run_of-is_dispatched b.repo b.default_branch none none r fits))
      h1
