-- ===== src/Playlist/Remote.antt =====
-- The list of ids that a control point gets from a device.
