-- ===== src/DocSearch/Index/AllFToO.antt =====
-- The search data of the pages of everything, from f to o (Doc/html/search/all_*.js).
use upciedev.Prelude.{List, [], ◌∷◌}
use upciedev.DocSearch.Results.{SearchEntry}
use upciedev.DocSearch.Index.{single}

abbrev pub all_66 : List SearchEntry
all_66 =
    single "file_5fcnt" "file_cnt"
      "../structupciedev__file__list.html#a29fc76d66fcd00034f2a33fe60099c88" "upciedev_file_list"
    ∷ single "filp" "filp" "../structupciedev__file__list.html#a1f13c1fe78b490ed69ecbffa3a12bbef"
        "upciedev_file_list"
    ∷ single "funcnumber" "funcNumber"
        "../structpciedev__dev.html#a36d7c7cf8cbf98727f98433cdbdaaae1" "pciedev_dev"
    ∷ []

abbrev pub all_69 : List SearchEntry
all_69 =
    single "ioctrl_5fall" "IOCTRL_ALL" "../pciedev__io_8h.html#a1dc1215c881918ae78af0f20713b05a5"
      "pciedev_io.h"
    ∷ single "ioctrl_5fr" "IOCTRL_R" "../pciedev__io_8h.html#a314ade3cefcb60fbf18f80c8eba4b54c"
        "pciedev_io.h"
    ∷ single "ioctrl_5fw" "IOCTRL_W" "../pciedev__io_8h.html#a35ef23c334a9de2bfddddf640577d972"
        "pciedev_io.h"
    ∷ single "irq_5fflag" "irq_flag" "../structpciedev__dev.html#a63c39ba841c2a04ebd5cabadf2c8d14e"
        "pciedev_dev"
    ∷ single "irq_5fline" "irq_line" "../structpciedev__dev.html#ac7f57db218b2645cc3f8f4740b49d600"
        "pciedev_dev"
    ∷ single "irq_5fmode" "irq_mode" "../structpciedev__dev.html#a3bf528da41deea66659a704d7d199cef"
        "pciedev_dev"
    ∷ single "irq_5fpin" "irq_pin" "../structpciedev__dev.html#a3ed00696a9eacdc5b8aa6dbf5a798058"
        "pciedev_dev"
    ∷ []

abbrev pub all_6d : List SearchEntry
all_6d =
    single "mem_5fbase0" "mem_base0" "../structpciedev__dev.html#a9eeca3daecefa938fed5dfa82cd0134f"
      "pciedev_dev"
    ∷ single "mem_5fbase0_5fend" "mem_base0_end"
        "../structpciedev__dev.html#a13b54f913bbeacae98936d708920e431" "pciedev_dev"
    ∷ single "mem_5fbase0_5fflag" "mem_base0_flag"
        "../structpciedev__dev.html#a7689d8265585e5c19bfddcd33d949c88" "pciedev_dev"
    ∷ single "mem_5fbase1" "mem_base1"
        "../structpciedev__dev.html#aab9adcd9233138414badd0c1e8db1f02" "pciedev_dev"
    ∷ single "mem_5fbase1_5fend" "mem_base1_end"
        "../structpciedev__dev.html#a00a1ac6ebdbd16b78f3b2b510dde3f75" "pciedev_dev"
    ∷ single "mem_5fbase1_5fflag" "mem_base1_flag"
        "../structpciedev__dev.html#a8a625e696ed055d6f818738c2a92875f" "pciedev_dev"
    ∷ single "mem_5fbase2" "mem_base2"
        "../structpciedev__dev.html#aade7517fe3f08239e7460e9461e2563c" "pciedev_dev"
    ∷ single "mem_5fbase2_5fend" "mem_base2_end"
        "../structpciedev__dev.html#a2b3aafb9b6817245845b155d1dd3e92e" "pciedev_dev"
    ∷ single "mem_5fbase2_5fflag" "mem_base2_flag"
        "../structpciedev__dev.html#adb2583a869e02b007f7e4b2f08800fbe" "pciedev_dev"
    ∷ single "mem_5fbase3" "mem_base3"
        "../structpciedev__dev.html#ae3ff109bfd9cb408840e508cff84b41b" "pciedev_dev"
    ∷ single "mem_5fbase3_5fend" "mem_base3_end"
        "../structpciedev__dev.html#ac342b2f6483d567df043678e627ce55f" "pciedev_dev"
    ∷ single "mem_5fbase3_5fflag" "mem_base3_flag"
        "../structpciedev__dev.html#a508632a38d538a0e821f96898ba7d80f" "pciedev_dev"
    ∷ single "mem_5fbase4" "mem_base4"
        "../structpciedev__dev.html#ad0e9a713d5f0d5634889c3fe42027df2" "pciedev_dev"
    ∷ single "mem_5fbase4_5fend" "mem_base4_end"
        "../structpciedev__dev.html#acff2a1d6bd78f11a63c8d8b300afc51b" "pciedev_dev"
    ∷ single "mem_5fbase4_5fflag" "mem_base4_flag"
        "../structpciedev__dev.html#aefe502be39515a39eb1d2330b6358add" "pciedev_dev"
    ∷ single "mem_5fbase5" "mem_base5"
        "../structpciedev__dev.html#aae516cf31dd9d645b214c5569c8067e5" "pciedev_dev"
    ∷ single "mem_5fbase5_5fend" "mem_base5_end"
        "../structpciedev__dev.html#a1282cc47941988b4f4f40e217ed1a6ea" "pciedev_dev"
    ∷ single "mem_5fbase5_5fflag" "mem_base5_flag"
        "../structpciedev__dev.html#afa46524d43b30b75519b4f18b6461d3a" "pciedev_dev"
    ∷ single "memmory_5fbase0" "memmory_base0"
        "../structpciedev__dev.html#a53596933996f3b9b03254cf0054e9148" "pciedev_dev"
    ∷ single "memmory_5fbase1" "memmory_base1"
        "../structpciedev__dev.html#ae754c343d131ac67a1f555173c6a373b" "pciedev_dev"
    ∷ single "memmory_5fbase2" "memmory_base2"
        "../structpciedev__dev.html#a4aef037999e808b2e013978f6d1055cb" "pciedev_dev"
    ∷ single "memmory_5fbase3" "memmory_base3"
        "../structpciedev__dev.html#aae2703c74a36294718cd01b31bb4f81d" "pciedev_dev"
    ∷ single "memmory_5fbase4" "memmory_base4"
        "../structpciedev__dev.html#a614bbb6ab9d71f9ba40eb29e2b84db39" "pciedev_dev"
    ∷ single "memmory_5fbase5" "memmory_base5"
        "../structpciedev__dev.html#a08b0506d15ec24f529bdea4d6e459f2a" "pciedev_dev"
    ∷ single "mode_5frw" "mode_rw" "../structdevice__rw.html#afed29415714fb813dea1c933ef904a2c"
        "device_rw"
    ∷ single "module_5fauthor" "MODULE_AUTHOR"
        "../upciedev__drv_8c.html#aeb38205dd76d7ef98c268faa49b66a02" "upciedev_drv.c"
    ∷ single "module_5fdescription" "MODULE_DESCRIPTION"
        "../upciedev__drv_8c.html#a04135c0cdd256a3304e0ece7f02d3e3e" "upciedev_drv.c"
    ∷ single "module_5fexit" "module_exit"
        "../upciedev__drv_8c.html#a81db766d6c760fb089254b52ca3e5b1b" "upciedev_drv.c"
    ∷ single "module_5finit" "module_init"
        "../upciedev__drv_8c.html#a1529276f8eb03153ef29fca48b388169" "upciedev_drv.c"
    ∷ single "module_5flicense" "MODULE_LICENSE"
        "../upciedev__drv_8c.html#a5c95e2cd11cba226f5f3513060a8928e" "upciedev_drv.c"
    ∷ single "module_5fversion" "MODULE_VERSION"
        "../upciedev__drv_8c.html#aaf1fcc58f41ef923017c9d1bb319686d" "upciedev_drv.c"
    ∷ []

abbrev pub all_6e : List SearchEntry
all_6e =
    single "node_5ffile_5flist" "node_file_list"
      "../structupciedev__file__list.html#a0849bf418ad72dd15dfe82656ae0b2cd" "upciedev_file_list"
    ∷ single "null_5fdev" "null_dev" "../structpciedev__dev.html#afe1e74f898cb5cbe0b407282cb828941"
        "pciedev_dev"
    ∷ []

abbrev pub all_6f : List SearchEntry
all_6f =
    single "offset" "offset" "../structdevice__ioctrl__data.html#aa0b658a92f878b772eacf929ffe1e180"
      "device_ioctrl_data"
    ∷ single "offset_5frw" "offset_rw" "../structdevice__rw.html#ab06d43634d5687872ab483eb4dd96a29"
        "device_rw"
    ∷ []
