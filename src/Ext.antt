-- ===== src/Ext.antt =====
-- crates/mh-cli/src/ui_ext: what the extension UI lets an extension's page have. `Path` has the
-- paths of asset files, `Broker` the messages that a page may post.
pub mod Path
pub mod Broker
