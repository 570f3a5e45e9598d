-- ===== src/Actions.antt =====
-- app/actions/.
pub mod SendDedup
pub mod OAuthToken
pub mod EmailSend
pub mod SlackPost
pub mod GithubDigest
pub mod UpstreamReader
pub mod HttpCall
pub mod CalendarDigest
pub mod R2Upload
pub mod Disclosure
