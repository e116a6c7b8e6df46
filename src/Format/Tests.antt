-- ===== src/Format/Tests.antt =====
-- An instance of the theorem about formatting.
use elephant_os.Base.{◌≡◌, arith, done}
use elephant_os.Disk.{Partition}
use elephant_os.Format.{layout, partition_format, mount_partition}
use elephant_os.Format.Layout.{Fits}
use elephant_os.Format.Fresh.{IsFresh, mount_partition-partition_format}

-- a partition of 10000 sectors from sector 2048 on
abbrev blank : Partition
blank = record {
  start_lba = 2048;
  sec_cnt = 10000;
  sb = layout 0 0;
  block_bitmap = record { btmp_bytes_len = 0; bits = λ i. 0 };
  inode_bitmap = record { btmp_bytes_len = 0; bits = λ i. 0 };
  disk = λ a. 7;
}

blank-Fits : Fits 2048 10000
blank-Fits = record { holds = omega arith; on_disk = omega arith }

mount_partition-partition_format_example :
    (p1 p2 : Partition) × (partition_format blank ≡ done p1)
    × (mount_partition p1 (λ i. 9) (λ i. 9) ≡ done p2)
    × IsFresh p2
mount_partition-partition_format_example =
    mount_partition-partition_format blank (λ i. 9) (λ i. 9) blank-Fits (λ i. omega arith)
