-- ===== src/DocSearch/Index/Types.antt =====
-- The search data of the pages of the structures, files and type definitions
-- (Doc/html/search/classes_*.js, files_*.js and typedefs_*.js).
use upciedev.Prelude.{List, [], ◌∷◌}
use upciedev.DocSearch.Results.{SearchEntry}
use upciedev.DocSearch.Index.{single}

abbrev pub classes_64 : List SearchEntry
classes_64 =
    single "device_5fioctrl_5fdata" "device_ioctrl_data" "../structdevice__ioctrl__data.html" ""
    ∷ single "device_5fioctrl_5fdma" "device_ioctrl_dma" "../structdevice__ioctrl__dma.html" ""
    ∷ single "device_5fioctrl_5ftime" "device_ioctrl_time" "../structdevice__ioctrl__time.html" ""
    ∷ single "device_5frw" "device_rw" "../structdevice__rw.html" ""
    ∷ []

abbrev pub classes_70 : List SearchEntry
classes_70 =
    single "pciedev_5fbrd_5finfo" "pciedev_brd_info" "../structpciedev__brd__info.html" ""
    ∷ single "pciedev_5fcdev" "pciedev_cdev" "../structpciedev__cdev.html" ""
    ∷ single "pciedev_5fdev" "pciedev_dev" "../structpciedev__dev.html" ""
    ∷ single "pciedev_5fprj_5finfo" "pciedev_prj_info" "../structpciedev__prj__info.html" ""
    ∷ []

abbrev pub classes_75 : List SearchEntry
classes_75 =
    single "upciedev_5ffile_5flist" "upciedev_file_list" "../structupciedev__file__list.html" ""
    ∷ []

abbrev pub files_70 : List SearchEntry
files_70 =
    single "pciedev_5fio_2eh" "pciedev_io.h" "../pciedev__io_8h.html" ""
    ∷ single "pciedev_5fioctl_5fexp_2ec" "pciedev_ioctl_exp.c" "../pciedev__ioctl__exp_8c.html" ""
    ∷ single "pciedev_5fprobe_5fexp_2ec" "pciedev_probe_exp.c" "../pciedev__probe__exp_8c.html" ""
    ∷ single "pciedev_5fremove_5fexp_2ec" "pciedev_remove_exp.c" "../pciedev__remove__exp_8c.html"
        ""
    ∷ single "pciedev_5frw_5fexp_2ec" "pciedev_rw_exp.c" "../pciedev__rw__exp_8c.html" ""
    ∷ single "pciedev_5fufn_2ec" "pciedev_ufn.c" "../pciedev__ufn_8c.html" ""
    ∷ single "pciedev_5fufn_2eh" "pciedev_ufn.h" "../pciedev__ufn_8h.html" ""
    ∷ []

abbrev pub files_75 : List SearchEntry
files_75 = single "upciedev_5fdrv_2ec" "upciedev_drv.c" "../upciedev__drv_8c.html" "" ∷ []

abbrev pub typedefs_64 : List SearchEntry
typedefs_64 =
    single "device_5fioctrl_5fdata" "device_ioctrl_data"
      "../pciedev__io_8h.html#a9f5c23857ea399bf4a9bb9652b6d817b" "pciedev_io.h"
    ∷ single "device_5fioctrl_5fdma" "device_ioctrl_dma"
        "../pciedev__io_8h.html#a795326190b88aa344d83d5493642a274" "pciedev_io.h"
    ∷ single "device_5fioctrl_5ftime" "device_ioctrl_time"
        "../pciedev__io_8h.html#aba7e14009372d9742940885711d7890e" "pciedev_io.h"
    ∷ single "device_5frw" "device_rw" "../pciedev__io_8h.html#a198b5f4fef9dff99b6c27836f972bc19"
        "pciedev_io.h"
    ∷ []

abbrev pub typedefs_70 : List SearchEntry
typedefs_70 =
    single "pciedev_5fbrd_5finfo" "pciedev_brd_info"
      "../pciedev__ufn_8h.html#a4342eaea5cad7821f56bc3ba64f8104a" "pciedev_ufn.h"
    ∷ single "pciedev_5fcdev" "pciedev_cdev"
        "../pciedev__ufn_8h.html#a4ae814911b067afa89f58fcaf1241a82" "pciedev_ufn.h"
    ∷ single "pciedev_5fdev" "pciedev_dev"
        "../pciedev__ufn_8h.html#a8b346c63af6e09c3191f8b83f53cf971" "pciedev_ufn.h"
    ∷ single "pciedev_5fprj_5finfo" "pciedev_prj_info"
        "../pciedev__ufn_8h.html#a247bf67f29f8c8442f2c1d8d4e6ed4f6" "pciedev_ufn.h"
    ∷ []

abbrev pub typedefs_75 : List SearchEntry
typedefs_75 =
    single "upciedev_5ffile_5flist" "upciedev_file_list"
      "../pciedev__ufn_8h.html#a4002e0ed7729cf485218730115e81277" "pciedev_ufn.h"
    ∷ []
