-- ===== src/DocSearch/Index/AllAToE.antt =====
-- The search data of the pages of everything, from a to e (Doc/html/search/all_*.js).
use upciedev.Prelude.{List, [], ◌∷◌}
use upciedev.DocSearch.Results.{SearchEntry}
use upciedev.DocSearch.Index.{single, several, target}

abbrev pub all_61 : List SearchEntry
all_61 =
    single "ascii_5fboard_5fmagic_5fnum" "ASCII_BOARD_MAGIC_NUM"
      "../pciedev__ufn_8h.html#aca51b3d5775dca72eb36777c14d34fd4" "pciedev_ufn.h"
    ∷ single "ascii_5fboard_5fmagic_5fnum_5fl" "ASCII_BOARD_MAGIC_NUM_L"
        "../pciedev__ufn_8h.html#a6d893ebfc112547b07f019e4ea40238e" "pciedev_ufn.h"
    ∷ single "ascii_5fproj_5fmagic_5fnum" "ASCII_PROJ_MAGIC_NUM"
        "../pciedev__ufn_8h.html#a3f6a99cce20fba28cfba56e8c30355dc" "pciedev_ufn.h"
    ∷ []

abbrev pub all_62 : List SearchEntry
all_62 =
    single "bar0" "BAR0" "../pciedev__io_8h.html#a1fce441aaa962f572d643140658a6e4c" "pciedev_io.h"
    ∷ single "bar1" "BAR1" "../pciedev__io_8h.html#a4ceeca7cc9bab8b697f8a49f79037010" "pciedev_io.h"
    ∷ single "bar2" "BAR2" "../pciedev__io_8h.html#a44fa2ca32ff22e5eb7fa28ef39e50780" "pciedev_io.h"
    ∷ single "bar3" "BAR3" "../pciedev__io_8h.html#a7f201c103377c8f3c84f10576e63e7af" "pciedev_io.h"
    ∷ single "bar4" "BAR4" "../pciedev__io_8h.html#ace7f77e5691514de1c5a1f8c16d3025c" "pciedev_io.h"
    ∷ single "bar5" "BAR5" "../pciedev__io_8h.html#a7473bbc92af15efd739f5c06409d8bc4" "pciedev_io.h"
    ∷ single "barx_5frw" "barx_rw" "../structdevice__rw.html#ae382b34e69e05728f9a046ae0cf53c3a"
        "device_rw"
    ∷ single "binded" "binded" "../structpciedev__dev.html#a51671163411ed9b55b4efd560d78e935"
        "pciedev_dev"
    ∷ single "brd_5finfo_5flist" "brd_info_list"
        "../structpciedev__dev.html#a7eedb6b87273cc7942ee679d90a7d219" "pciedev_dev"
    ∷ single "brd_5fnum" "brd_num" "../structpciedev__dev.html#a12a1bde58b97299f0f6bd7b8b484f31b"
        "pciedev_dev"
    ∷ single "bus_5ffunc" "bus_func" "../structpciedev__dev.html#a2e80f1ccc118c804209ab8858861e66a"
        "pciedev_dev"
    ∷ single "busnumber" "busNumber" "../structpciedev__dev.html#af0a497c0dd86b442745b10a74c95000b"
        "pciedev_dev"
    ∷ []

abbrev pub all_63 : List SearchEntry
all_63 =
    single "cdev" "cdev" "../structpciedev__dev.html#ab2013286f43d6c6113e2a7887146f592"
      "pciedev_dev"
    ∷ single "class_5fcode" "class_code"
        "../structpciedev__dev.html#a7a18e1f1c1746d8996c13cd609d5d8b4" "pciedev_dev"
    ∷ single "cmd" "cmd" "../structdevice__ioctrl__data.html#abce7358be06d7ce7e756fe02c25c187e"
        "device_ioctrl_data"
    ∷ []

abbrev pub all_64 : List SearchEntry
all_64 =
    single "data" "data" "../structdevice__ioctrl__data.html#a99d6274576188aeea8225493378b04ec"
      "device_ioctrl_data"
    ∷ single "data_5frw" "data_rw" "../structdevice__rw.html#a4731025369481beeaa5c408775ad2a7e"
        "device_rw"
    ∷ single "dev_5fdma_5f64mask" "dev_dma_64mask"
        "../structpciedev__dev.html#af7e6baa6cd220202c57c57fd6f4c8960" "pciedev_dev"
    ∷ single "dev_5ffile_5flist" "dev_file_list"
        "../structpciedev__dev.html#a8ed1dbb1842cc5dac1c4e70ee591563f" "pciedev_dev"
    ∷ single "dev_5ffile_5fref" "dev_file_ref"
        "../structpciedev__dev.html#a70dd23e1e4e09f064d5bef3e55f475fb" "pciedev_dev"
    ∷ single "dev_5fminor" "dev_minor"
        "../structpciedev__dev.html#af40974d12b3cb4756839bac0f12a4d93" "pciedev_dev"
    ∷ single "dev_5fmut" "dev_mut" "../structpciedev__dev.html#a71029cd75f21c4574bbfae901fec48f7"
        "pciedev_dev"
    ∷ single "dev_5fname" "dev_name" "../structpciedev__dev.html#ab1b83722186d216f09a5a720e5164e90"
        "pciedev_dev"
    ∷ single "dev_5fnum" "dev_num" "../structpciedev__dev.html#a3a204fd1eee6f172951fb0182116f200"
        "pciedev_dev"
    ∷ single "dev_5fpayload_5fsize" "dev_payload_size"
        "../structpciedev__dev.html#ac977dad885ba0696370be25e4233e59e" "pciedev_dev"
    ∷ single "dev_5fstr" "dev_str" "../structpciedev__dev.html#ae5322ae529331c6aeeb37b2766b780f8"
        "pciedev_dev"
    ∷ single "dev_5fsts" "dev_sts" "../structpciedev__dev.html#a1e913602320203e4f93018ea16b97445"
        "pciedev_dev"
    ∷ single "devfn" "devfn" "../structpciedev__dev.html#ab6f3fabedbac7c70efa91d88e6dc7550"
        "pciedev_dev"
    ∷ single "device_5fid" "device_id"
        "../structpciedev__dev.html#a5323236e310202fa3bd7c8829a5223e6" "pciedev_dev"
    ∷ several "device_5fioctrl_5fdata" "device_ioctrl_data" (
        target "../structdevice__ioctrl__data.html" "device_ioctrl_data"
        ∷ target "../pciedev__io_8h.html#a9f5c23857ea399bf4a9bb9652b6d817b"
            "device_ioctrl_data():&#160;pciedev_io.h"
        ∷ [])
    ∷ several "device_5fioctrl_5fdma" "device_ioctrl_dma" (
        target "../structdevice__ioctrl__dma.html" "device_ioctrl_dma"
        ∷ target "../pciedev__io_8h.html#a795326190b88aa344d83d5493642a274"
            "device_ioctrl_dma():&#160;pciedev_io.h"
        ∷ [])
    ∷ several "device_5fioctrl_5ftime" "device_ioctrl_time" (
        target "../structdevice__ioctrl__time.html" "device_ioctrl_time"
        ∷ target "../pciedev__io_8h.html#aba7e14009372d9742940885711d7890e"
            "device_ioctrl_time():&#160;pciedev_io.h"
        ∷ [])
    ∷ several "device_5frw" "device_rw" (
        target "../structdevice__rw.html" "device_rw"
        ∷ target "../pciedev__io_8h.html#a198b5f4fef9dff99b6c27836f972bc19"
            "device_rw():&#160;pciedev_io.h"
        ∷ [])
    ∷ single "devnumber" "devNumber" "../structpciedev__dev.html#a857356f652dc59e77c1bbb48e0b2333b"
        "pciedev_dev"
    ∷ single "dma_5fcmd" "dma_cmd"
        "../structdevice__ioctrl__dma.html#a5cce7fa7327b8572fba52bdf18d14b0f" "device_ioctrl_dma"
    ∷ single "dma_5fdata_5foffset" "DMA_DATA_OFFSET"
        "../pciedev__io_8h.html#aa293c11b73c1e8a741c9060d8ef1c021" "pciedev_io.h"
    ∷ single "dma_5fdata_5foffset_5fbyte" "DMA_DATA_OFFSET_BYTE"
        "../pciedev__io_8h.html#a9fa9f95b2d69f5b07cb9cb30b1ba9afe" "pciedev_io.h"
    ∷ single "dma_5foffset" "dma_offset"
        "../structdevice__ioctrl__dma.html#afcf57847c512e334f1a83bd89be950fd" "device_ioctrl_dma"
    ∷ single "dma_5fpattern" "dma_pattern"
        "../structdevice__ioctrl__dma.html#a1e19c195c09b5115ca42ca5bf7392bd8" "device_ioctrl_dma"
    ∷ single "dma_5freserved1" "dma_reserved1"
        "../structdevice__ioctrl__dma.html#a0b2c5967b28765ba545b56dcb88c2762" "device_ioctrl_dma"
    ∷ single "dma_5freserved2" "dma_reserved2"
        "../structdevice__ioctrl__dma.html#a0796ba7e60f5ed15719a885a871101c5" "device_ioctrl_dma"
    ∷ single "dma_5fsize" "dma_size"
        "../structdevice__ioctrl__dma.html#a32b3b16303be485dc116787dc4564bdd" "device_ioctrl_dma"
    ∷ []

abbrev pub all_65 : List SearchEntry
all_65 =
    several "export_5fsymbol" "EXPORT_SYMBOL" (
      target "../pciedev__ioctl__exp_8c.html#a889e49a098c44667f34ee09eb94f3c6a"
        "EXPORT_SYMBOL(pciedev_ioctl_exp):&#160;pciedev_ioctl_exp.c"
      ∷ target "../pciedev__probe__exp_8c.html#abc9bdcb88daa33ee8ae058eeaa2251c8"
          "EXPORT_SYMBOL(pciedev_probe_exp):&#160;pciedev_probe_exp.c"
      ∷ target "../pciedev__remove__exp_8c.html#a8487f59e9ab9587fd1cf0725727275aa"
          "EXPORT_SYMBOL(pciedev_remove_exp):&#160;pciedev_remove_exp.c"
      ∷ target "../pciedev__rw__exp_8c.html#af50d888daed4367a10b43b71a5c74eb0"
          "EXPORT_SYMBOL(pciedev_read_exp):&#160;pciedev_rw_exp.c"
      ∷ target "../pciedev__rw__exp_8c.html#a17a1c6f35a7ed697a490a1ca66b2c29b"
          "EXPORT_SYMBOL(pciedev_write_exp):&#160;pciedev_rw_exp.c"
      ∷ target "../pciedev__ufn_8c.html#add6b7ba455c4805935a5a9bace119129"
          "EXPORT_SYMBOL(upciedev_init_module_exp):&#160;pciedev_ufn.c"
      ∷ target "../pciedev__ufn_8c.html#a7ec45425c1b2e74af4d398ed7f9212de"
          "EXPORT_SYMBOL(upciedev_cleanup_module_exp):&#160;pciedev_ufn.c"
      ∷ target "../pciedev__ufn_8c.html#ac844a1d72164dc18da863fd2ebb3a1af"
          "EXPORT_SYMBOL(pciedev_open_exp):&#160;pciedev_ufn.c"
      ∷ target "../pciedev__ufn_8c.html#a61d2e6b8cc11ea6d68aa89127aada355"
          "EXPORT_SYMBOL(pciedev_release_exp):&#160;pciedev_ufn.c"
      ∷ target "../pciedev__ufn_8c.html#ad5a165b96b96af52cf601887ea253b2f"
          "EXPORT_SYMBOL(pciedev_set_drvdata):&#160;pciedev_ufn.c"
      ∷ target "../pciedev__ufn_8c.html#a0e1e74f108738755b0c742ac71907fd4"
          "EXPORT_SYMBOL(pciedev_get_drvdata):&#160;pciedev_ufn.c"
      ∷ target "../pciedev__ufn_8c.html#a4e915dfd29e270f043c0566caa9a6087"
          "EXPORT_SYMBOL(pciedev_get_brdnum):&#160;pciedev_ufn.c"
      ∷ target "../pciedev__ufn_8c.html#a4fb250f74f1a0732a2c0064cab95ca1a"
          "EXPORT_SYMBOL(pciedev_get_pciedata):&#160;pciedev_ufn.c"
      ∷ target "../pciedev__ufn_8c.html#a906761c56b3624e88c3410a01ae4f7ce"
          "EXPORT_SYMBOL(pciedev_get_baddress):&#160;pciedev_ufn.c"
      ∷ target "../pciedev__ufn_8c.html#ae155e7f4908c28fd5df9d6c8375f877d"
          "EXPORT_SYMBOL(pciedev_setup_interrupt):&#160;pciedev_ufn.c"
      ∷ target "../pciedev__ufn_8c.html#a43e78acb59528339d96afabcad70ac4b"
          "EXPORT_SYMBOL(pciedev_get_brdinfo):&#160;pciedev_ufn.c"
      ∷ target "../pciedev__ufn_8c.html#a99061ad1906f6eb5c82fefc424cc0b8f"
          "EXPORT_SYMBOL(pciedev_fill_prj_info):&#160;pciedev_ufn.c"
      ∷ target "../pciedev__ufn_8c.html#a032f20f49be6687932b66383b4a8907d"
          "EXPORT_SYMBOL(pciedev_get_prjinfo):&#160;pciedev_ufn.c"
      ∷ target "../pciedev__ufn_8c.html#a2acb177d65187ee20660834da0d07380"
          "EXPORT_SYMBOL(pciedev_procinfo):&#160;pciedev_ufn.c"
      ∷ [])
    ∷ []
