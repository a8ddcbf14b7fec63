-- ===== src/StorageAlarm.antt =====
-- storage-alarm.js in src: the one alarm of an object that several tables of waiting work share.
pub mod Wakeups
pub mod Coverage
mod Tests
