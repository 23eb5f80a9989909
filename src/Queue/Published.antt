-- ===== src/Queue/Published.antt =====
-- src/enoch/tasks/queue.py: whether a task's revision has a published review.
use enoch.Base.{Bool, not, ◌&&◌, ◌||◌, [], ◌∷◌}
use enoch.Base.Text.{truthy, one_of, starts_with}
use enoch.Job.{TaskJob}

-- `_job_has_confirmed_published_review`
unfoldable pub job_has_confirmed_published_review : TaskJob → Bool
job_has_confirmed_published_review job =
    job.review_published
    && (truthy job.review_id || truthy job.review_url)
    && not (starts_with job.review_id "legacy-review:" && not (truthy job.review_url))

-- `_job_has_unpublished_revision`
unfoldable pub job_has_unpublished_revision : TaskJob → Bool
unfolding job_has_confirmed_published_review
job_has_unpublished_revision job =
    truthy job.revision_id
    && one_of job.publish_stage ("committed" ∷ "pushed" ∷ "captured" ∷ "review_published" ∷ [])
    && not (job_has_confirmed_published_review job)
