-- ===== src/Tests.antt =====
-- The theorems at concrete inputs, and runs of the code on them.
mod ChatRuns
mod OverviewRuns
mod FriendRuns
mod E2eeRuns
mod HubRuns
mod AuthRuns
mod PushRuns
mod LimitRuns
