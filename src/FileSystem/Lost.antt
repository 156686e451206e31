-- ===== src/FileSystem/Lost.antt =====
-- A write of more than three blocks by `ssufs_write` of Project5/ssufs-ops.c.
