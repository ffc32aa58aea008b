-- ===== src/DocSearch/Index/VariablesBToI.antt =====
-- The search data of the pages of the variables, from b to i (Doc/html/search/variables_*.js).
use upciedev.Prelude.{List, [], ◌∷◌}
use upciedev.DocSearch.Results.{SearchEntry}
use upciedev.DocSearch.Index.{single}

abbrev pub variables_62 : List SearchEntry
variables_62 =
    single "barx_5frw" "barx_rw" "../structdevice__rw.html#ae382b34e69e05728f9a046ae0cf53c3a"
      "device_rw"
    ∷ single "binded" "binded" "../structpciedev__dev.html#a51671163411ed9b55b4efd560d78e935"
        "pciedev_dev"
    ∷ single "brd_5finfo_5flist" "brd_info_list"
        "../structpciedev__dev.html#a7eedb6b87273cc7942ee679d90a7d219" "pciedev_dev"
    ∷ single "brd_5fnum" "brd_num" "../structpciedev__dev.html#a12a1bde58b97299f0f6bd7b8b484f31b"
        "pciedev_dev"
    ∷ single "bus_5ffunc" "bus_func" "../structpciedev__dev.html#a2e80f1ccc118c804209ab8858861e66a"
        "pciedev_dev"
    ∷ single "busnumber" "busNumber" "../structpciedev__dev.html#af0a497c0dd86b442745b10a74c95000b"
        "pciedev_dev"
    ∷ []

abbrev pub variables_63 : List SearchEntry
variables_63 =
    single "cdev" "cdev" "../structpciedev__dev.html#ab2013286f43d6c6113e2a7887146f592"
      "pciedev_dev"
    ∷ single "class_5fcode" "class_code"
        "../structpciedev__dev.html#a7a18e1f1c1746d8996c13cd609d5d8b4" "pciedev_dev"
    ∷ single "cmd" "cmd" "../structdevice__ioctrl__data.html#abce7358be06d7ce7e756fe02c25c187e"
        "device_ioctrl_data"
    ∷ []

abbrev pub variables_64 : List SearchEntry
variables_64 =
    single "data" "data" "../structdevice__ioctrl__data.html#a99d6274576188aeea8225493378b04ec"
      "device_ioctrl_data"
    ∷ single "data_5frw" "data_rw" "../structdevice__rw.html#a4731025369481beeaa5c408775ad2a7e"
        "device_rw"
    ∷ single "dev_5fdma_5f64mask" "dev_dma_64mask"
        "../structpciedev__dev.html#af7e6baa6cd220202c57c57fd6f4c8960" "pciedev_dev"
    ∷ single "dev_5ffile_5flist" "dev_file_list"
        "../structpciedev__dev.html#a8ed1dbb1842cc5dac1c4e70ee591563f" "pciedev_dev"
    ∷ single "dev_5ffile_5fref" "dev_file_ref"
        "../structpciedev__dev.html#a70dd23e1e4e09f064d5bef3e55f475fb" "pciedev_dev"
    ∷ single "dev_5fminor" "dev_minor"
        "../structpciedev__dev.html#af40974d12b3cb4756839bac0f12a4d93" "pciedev_dev"
    ∷ single "dev_5fmut" "dev_mut" "../structpciedev__dev.html#a71029cd75f21c4574bbfae901fec48f7"
        "pciedev_dev"
    ∷ single "dev_5fname" "dev_name" "../structpciedev__dev.html#ab1b83722186d216f09a5a720e5164e90"
        "pciedev_dev"
    ∷ single "dev_5fnum" "dev_num" "../structpciedev__dev.html#a3a204fd1eee6f172951fb0182116f200"
        "pciedev_dev"
    ∷ single "dev_5fpayload_5fsize" "dev_payload_size"
        "../structpciedev__dev.html#ac977dad885ba0696370be25e4233e59e" "pciedev_dev"
    ∷ single "dev_5fstr" "dev_str" "../structpciedev__dev.html#ae5322ae529331c6aeeb37b2766b780f8"
        "pciedev_dev"
    ∷ single "dev_5fsts" "dev_sts" "../structpciedev__dev.html#a1e913602320203e4f93018ea16b97445"
        "pciedev_dev"
    ∷ single "devfn" "devfn" "../structpciedev__dev.html#ab6f3fabedbac7c70efa91d88e6dc7550"
        "pciedev_dev"
    ∷ single "device_5fid" "device_id"
        "../structpciedev__dev.html#a5323236e310202fa3bd7c8829a5223e6" "pciedev_dev"
    ∷ single "devnumber" "devNumber" "../structpciedev__dev.html#a857356f652dc59e77c1bbb48e0b2333b"
        "pciedev_dev"
    ∷ single "dma_5fcmd" "dma_cmd"
        "../structdevice__ioctrl__dma.html#a5cce7fa7327b8572fba52bdf18d14b0f" "device_ioctrl_dma"
    ∷ single "dma_5foffset" "dma_offset"
        "../structdevice__ioctrl__dma.html#afcf57847c512e334f1a83bd89be950fd" "device_ioctrl_dma"
    ∷ single "dma_5fpattern" "dma_pattern"
        "../structdevice__ioctrl__dma.html#a1e19c195c09b5115ca42ca5bf7392bd8" "device_ioctrl_dma"
    ∷ single "dma_5freserved1" "dma_reserved1"
        "../structdevice__ioctrl__dma.html#a0b2c5967b28765ba545b56dcb88c2762" "device_ioctrl_dma"
    ∷ single "dma_5freserved2" "dma_reserved2"
        "../structdevice__ioctrl__dma.html#a0796ba7e60f5ed15719a885a871101c5" "device_ioctrl_dma"
    ∷ single "dma_5fsize" "dma_size"
        "../structdevice__ioctrl__dma.html#a32b3b16303be485dc116787dc4564bdd" "device_ioctrl_dma"
    ∷ []

abbrev pub variables_66 : List SearchEntry
variables_66 =
    single "file_5fcnt" "file_cnt"
      "../structupciedev__file__list.html#a29fc76d66fcd00034f2a33fe60099c88" "upciedev_file_list"
    ∷ single "filp" "filp" "../structupciedev__file__list.html#a1f13c1fe78b490ed69ecbffa3a12bbef"
        "upciedev_file_list"
    ∷ single "funcnumber" "funcNumber"
        "../structpciedev__dev.html#a36d7c7cf8cbf98727f98433cdbdaaae1" "pciedev_dev"
    ∷ []

abbrev pub variables_69 : List SearchEntry
variables_69 =
    single "irq_5fflag" "irq_flag" "../structpciedev__dev.html#a63c39ba841c2a04ebd5cabadf2c8d14e"
      "pciedev_dev"
    ∷ single "irq_5fline" "irq_line" "../structpciedev__dev.html#ac7f57db218b2645cc3f8f4740b49d600"
        "pciedev_dev"
    ∷ single "irq_5fmode" "irq_mode" "../structpciedev__dev.html#a3bf528da41deea66659a704d7d199cef"
        "pciedev_dev"
    ∷ single "irq_5fpin" "irq_pin" "../structpciedev__dev.html#a3ed00696a9eacdc5b8aa6dbf5a798058"
        "pciedev_dev"
    ∷ []
