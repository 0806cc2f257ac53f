-- ===== src/Resume.antt =====
-- The continuation of a job that ended early (services/resume_chain.py and queue_resume.py): the walk
-- back over the entries it resumes, the checks of a resume, and its preview.
pub mod Walk
pub mod Handoff
pub mod Entry
pub mod Accepted
pub mod Links
pub mod Once
pub mod Preview
pub mod Samples
mod Examples
