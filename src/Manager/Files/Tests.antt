-- ===== src/Manager/Files/Tests.antt =====
-- Opening the file of the sample image and reading it.
use hooksqfs.Base.{◌≡◌, refl, some, [], ◌∷◌, arith, codes, str_eq}
use hooksqfs.Base.Int.{pos}
use hooksqfs.Path.{path_equals_normalized, path_relative_to_root}
use hooksqfs.Manager.{sqfs_check_path_then_convert, sqfs_find_inode}
use hooksqfs.Manager.Backing.{create_backing_fd}
use hooksqfs.Manager.Sample.{sample, sample_file, content, idle}
use hooksqfs.Manager.Files.{sqfs_open}
use hooksqfs.Manager.Files.Reads.{read_each}
use hooksqfs.Manager.Files.Lifecycle.{real_open}
use hooksqfs.Manager.Files.Contents.{Available, sqfs_open-content}

f-Available :
    Available sample
      (some (codes "f"))
      0
      5
      content
      (record (real_open sample (some (codes "/hook/./f")) 0 0 idle).1 { locks = 1 })
unfolding sqfs_find_inode create_backing_fd str_eq
f-Available = record {
  inode = sample_file;
  finds = refl;
  backs = refl;
  allocates = refl;
  serves = record { gives = λ offset count w. refl };
}

sqfs_open-content_example :
    let (r, o) = sqfs_open sample (some (codes "/hook/./f")) 0 0 idle in
    (r ≡ pos 5) × ((read_each sample (pos 5) (4 ∷ 9 ∷ []) o).0 ≡ content)
unfolding str_eq sqfs_check_path_then_convert path_equals_normalized path_relative_to_root
sqfs_open-content_example =
    sqfs_open-content sample (some (codes "/hook/./f")) (some (codes "f")) 0 0 0 5 content
      (4 ∷ 9 ∷ []) idle refl refl refl f-Available (omega arith, (omega arith, tt)) (omega arith)
