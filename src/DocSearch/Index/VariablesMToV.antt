-- ===== src/DocSearch/Index/VariablesMToV.antt =====
-- The search data of the pages of the variables, from m to v (Doc/html/search/variables_*.js).
use upciedev.Prelude.{List, [], ◌∷◌}
use upciedev.DocSearch.Results.{SearchEntry}
use upciedev.DocSearch.Index.{single, several, target}

abbrev pub variables_6d : List SearchEntry
variables_6d =
    single "mem_5fbase0" "mem_base0" "../structpciedev__dev.html#a9eeca3daecefa938fed5dfa82cd0134f"
      "pciedev_dev"
    ∷ single "mem_5fbase0_5fend" "mem_base0_end"
        "../structpciedev__dev.html#a13b54f913bbeacae98936d708920e431" "pciedev_dev"
    ∷ single "mem_5fbase0_5fflag" "mem_base0_flag"
        "../structpciedev__dev.html#a7689d8265585e5c19bfddcd33d949c88" "pciedev_dev"
    ∷ single "mem_5fbase1" "mem_base1"
        "../structpciedev__dev.html#aab9adcd9233138414badd0c1e8db1f02" "pciedev_dev"
    ∷ single "mem_5fbase1_5fend" "mem_base1_end"
        "../structpciedev__dev.html#a00a1ac6ebdbd16b78f3b2b510dde3f75" "pciedev_dev"
    ∷ single "mem_5fbase1_5fflag" "mem_base1_flag"
        "../structpciedev__dev.html#a8a625e696ed055d6f818738c2a92875f" "pciedev_dev"
    ∷ single "mem_5fbase2" "mem_base2"
        "../structpciedev__dev.html#aade7517fe3f08239e7460e9461e2563c" "pciedev_dev"
    ∷ single "mem_5fbase2_5fend" "mem_base2_end"
        "../structpciedev__dev.html#a2b3aafb9b6817245845b155d1dd3e92e" "pciedev_dev"
    ∷ single "mem_5fbase2_5fflag" "mem_base2_flag"
        "../structpciedev__dev.html#adb2583a869e02b007f7e4b2f08800fbe" "pciedev_dev"
    ∷ single "mem_5fbase3" "mem_base3"
        "../structpciedev__dev.html#ae3ff109bfd9cb408840e508cff84b41b" "pciedev_dev"
    ∷ single "mem_5fbase3_5fend" "mem_base3_end"
        "../structpciedev__dev.html#ac342b2f6483d567df043678e627ce55f" "pciedev_dev"
    ∷ single "mem_5fbase3_5fflag" "mem_base3_flag"
        "../structpciedev__dev.html#a508632a38d538a0e821f96898ba7d80f" "pciedev_dev"
    ∷ single "mem_5fbase4" "mem_base4"
        "../structpciedev__dev.html#ad0e9a713d5f0d5634889c3fe42027df2" "pciedev_dev"
    ∷ single "mem_5fbase4_5fend" "mem_base4_end"
        "../structpciedev__dev.html#acff2a1d6bd78f11a63c8d8b300afc51b" "pciedev_dev"
    ∷ single "mem_5fbase4_5fflag" "mem_base4_flag"
        "../structpciedev__dev.html#aefe502be39515a39eb1d2330b6358add" "pciedev_dev"
    ∷ single "mem_5fbase5" "mem_base5"
        "../structpciedev__dev.html#aae516cf31dd9d645b214c5569c8067e5" "pciedev_dev"
    ∷ single "mem_5fbase5_5fend" "mem_base5_end"
        "../structpciedev__dev.html#a1282cc47941988b4f4f40e217ed1a6ea" "pciedev_dev"
    ∷ single "mem_5fbase5_5fflag" "mem_base5_flag"
        "../structpciedev__dev.html#afa46524d43b30b75519b4f18b6461d3a" "pciedev_dev"
    ∷ single "memmory_5fbase0" "memmory_base0"
        "../structpciedev__dev.html#a53596933996f3b9b03254cf0054e9148" "pciedev_dev"
    ∷ single "memmory_5fbase1" "memmory_base1"
        "../structpciedev__dev.html#ae754c343d131ac67a1f555173c6a373b" "pciedev_dev"
    ∷ single "memmory_5fbase2" "memmory_base2"
        "../structpciedev__dev.html#a4aef037999e808b2e013978f6d1055cb" "pciedev_dev"
    ∷ single "memmory_5fbase3" "memmory_base3"
        "../structpciedev__dev.html#aae2703c74a36294718cd01b31bb4f81d" "pciedev_dev"
    ∷ single "memmory_5fbase4" "memmory_base4"
        "../structpciedev__dev.html#a614bbb6ab9d71f9ba40eb29e2b84db39" "pciedev_dev"
    ∷ single "memmory_5fbase5" "memmory_base5"
        "../structpciedev__dev.html#a08b0506d15ec24f529bdea4d6e459f2a" "pciedev_dev"
    ∷ single "mode_5frw" "mode_rw" "../structdevice__rw.html#afed29415714fb813dea1c933ef904a2c"
        "device_rw"
    ∷ []

abbrev pub variables_6e : List SearchEntry
variables_6e =
    single "node_5ffile_5flist" "node_file_list"
      "../structupciedev__file__list.html#a0849bf418ad72dd15dfe82656ae0b2cd" "upciedev_file_list"
    ∷ single "null_5fdev" "null_dev" "../structpciedev__dev.html#afe1e74f898cb5cbe0b407282cb828941"
        "pciedev_dev"
    ∷ []

abbrev pub variables_6f : List SearchEntry
variables_6f =
    single "offset" "offset" "../structdevice__ioctrl__data.html#aa0b658a92f878b772eacf929ffe1e180"
      "device_ioctrl_data"
    ∷ single "offset_5frw" "offset_rw" "../structdevice__rw.html#ab06d43634d5687872ab483eb4dd96a29"
        "device_rw"
    ∷ []

abbrev pub variables_70 : List SearchEntry
variables_70 =
    single "parent_5fdev" "parent_dev"
      "../structpciedev__dev.html#a3ccd02ec03020de42cdf8f1d748493d6" "pciedev_dev"
    ∷ single "pci_5fdev_5firq" "pci_dev_irq"
        "../structpciedev__dev.html#a858a6584f47bbe70e34e54cd8a008324" "pciedev_dev"
    ∷ single "pciedev_5fall_5fmems" "pciedev_all_mems"
        "../structpciedev__dev.html#a9439b81f518ed4bc0055f53101cd900c" "pciedev_dev"
    ∷ single "pciedev_5fboard_5fdate" "PCIEDEV_BOARD_DATE"
        "../structpciedev__brd__info.html#a1a6c23dd0317d5f343bd95bd75079a63" "pciedev_brd_info"
    ∷ single "pciedev_5fboard_5fid" "PCIEDEV_BOARD_ID"
        "../structpciedev__brd__info.html#ae94f88f988d0db5a887ffcf42b4ab235" "pciedev_brd_info"
    ∷ single "pciedev_5fboard_5freserved" "PCIEDEV_BOARD_RESERVED"
        "../structpciedev__brd__info.html#aba02a309752715d4081bf30465c0948c" "pciedev_brd_info"
    ∷ single "pciedev_5fboard_5fversion" "PCIEDEV_BOARD_VERSION"
        "../structpciedev__brd__info.html#a09721e4f18f2b6d882db29497e31fa3a" "pciedev_brd_info"
    ∷ single "pciedev_5fclass" "pciedev_class"
        "../structpciedev__cdev.html#aaa98d4915cbbed6c866ffaf7483108bc" "pciedev_cdev"
    ∷ single "pciedev_5fdev_5fm" "pciedev_dev_m"
        "../structpciedev__cdev.html#a8c11bf5f89111dabe132a47e1f4c76a7" "pciedev_cdev"
    ∷ single "pciedev_5fdrv_5fver_5fmaj" "PCIEDEV_DRV_VER_MAJ"
        "../structpciedev__cdev.html#ad61b849b4d938a1750e68585791eeebd" "pciedev_cdev"
    ∷ single "pciedev_5fdrv_5fver_5fmin" "PCIEDEV_DRV_VER_MIN"
        "../structpciedev__cdev.html#af290aa167eae6b6ec1eb1e82eccf9f9b" "pciedev_cdev"
    ∷ single "pciedev_5fhw_5fversion" "PCIEDEV_HW_VERSION"
        "../structpciedev__brd__info.html#a3579f9986da5358c11e47d3e2ecd74b3" "pciedev_brd_info"
    ∷ single "pciedev_5fmajor" "PCIEDEV_MAJOR"
        "../structpciedev__cdev.html#a1b39e1fbdc16a04ddbaa97bdf8a25bd2" "pciedev_cdev"
    ∷ single "pciedev_5fminor" "PCIEDEV_MINOR"
        "../structpciedev__cdev.html#ac992db6cc3d06151e8602f83d2a62a64" "pciedev_cdev"
    ∷ single "pciedev_5fpci_5fdev" "pciedev_pci_dev"
        "../structpciedev__dev.html#a2752cedd8537dd552c53eb3cfe5289e3" "pciedev_dev"
    ∷ single "pciedev_5fprocdir" "pciedev_procdir"
        "../structpciedev__cdev.html#a58b53d27105e413037a0e9b84c1c9e12" "pciedev_cdev"
    ∷ single "pciedev_5fproj_5fdate" "PCIEDEV_PROJ_DATE"
        "../structpciedev__prj__info.html#a168802287bd865a38046ed7ce1c8ddf5" "pciedev_prj_info"
    ∷ single "pciedev_5fproj_5fid" "PCIEDEV_PROJ_ID"
        "../structpciedev__prj__info.html#a64d2c70194b0134722e18d0042b97dd1" "pciedev_prj_info"
    ∷ several "pciedev_5fproj_5fnext" "PCIEDEV_PROJ_NEXT" (
        target "../structpciedev__brd__info.html#a9728484f826aafb16433484fa237490f"
          "pciedev_brd_info::PCIEDEV_PROJ_NEXT()"
        ∷ target "../structpciedev__prj__info.html#aa08856292f6a8c4e22e8ee9d2c62a62d"
            "pciedev_prj_info::PCIEDEV_PROJ_NEXT()"
        ∷ [])
    ∷ single "pciedev_5fproj_5freserved" "PCIEDEV_PROJ_RESERVED"
        "../structpciedev__prj__info.html#a6bd9422a240447891b3f7320890d4088" "pciedev_prj_info"
    ∷ single "pciedev_5fproj_5fversion" "PCIEDEV_PROJ_VERSION"
        "../structpciedev__prj__info.html#a9906330775b1a10fe77374728f2c248b" "pciedev_prj_info"
    ∷ single "pciedevmodulenum" "pciedevModuleNum"
        "../structpciedev__cdev.html#a15edea422f4d38368426aebf1a6728e2" "pciedev_cdev"
    ∷ single "prj_5finfo_5flist" "prj_info_list"
        "../structpciedev__dev.html#abbeab4eb9fde1991bddb7d550cea0073" "pciedev_dev"
    ∷ single "prj_5flist" "prj_list"
        "../structpciedev__prj__info.html#acd9c7558368cd3f73ef5e917791660ba" "pciedev_prj_info"
    ∷ []

abbrev pub variables_72 : List SearchEntry
variables_72 =
    single "reserved" "reserved"
      "../structdevice__ioctrl__data.html#ad8ffd816b771df6ef50f7c40166a37a6" "device_ioctrl_data"
    ∷ single "revision" "revision" "../structpciedev__dev.html#acee588bb923d6964d7274a976c60b81f"
        "pciedev_dev"
    ∷ single "rsrvd_5frw" "rsrvd_rw" "../structdevice__rw.html#ad00399557d63fd24a5301204a7631c52"
        "device_rw"
    ∷ single "rw_5foff0" "rw_off0" "../structpciedev__dev.html#a591d58b973d2267fb720eb4945a580a6"
        "pciedev_dev"
    ∷ single "rw_5foff1" "rw_off1" "../structpciedev__dev.html#a528311ce7651bbb1a31f1fba2aba01e2"
        "pciedev_dev"
    ∷ single "rw_5foff2" "rw_off2" "../structpciedev__dev.html#a6c373ebf413e5fec410b1b51dacb4a65"
        "pciedev_dev"
    ∷ single "rw_5foff3" "rw_off3" "../structpciedev__dev.html#ad49f7d49274b2b921da3c21aa857cebd"
        "pciedev_dev"
    ∷ single "rw_5foff4" "rw_off4" "../structpciedev__dev.html#a0cc4eb653f653ab59363e1d9f89a7d62"
        "pciedev_dev"
    ∷ single "rw_5foff5" "rw_off5" "../structpciedev__dev.html#a95eb4e3702cf7f042d99d03746f70d69"
        "pciedev_dev"
    ∷ []

abbrev pub variables_73 : List SearchEntry
variables_73 =
    single "scratch_5fbar" "scratch_bar"
      "../structpciedev__dev.html#a594a5c181000d31c2ffab9a3a1f39ab7" "pciedev_dev"
    ∷ single "scratch_5foffset" "scratch_offset"
        "../structpciedev__dev.html#a3d70cef688f7bad685097a682b6818ff" "pciedev_dev"
    ∷ single "size_5frw" "size_rw" "../structdevice__rw.html#ad9348912dabb0b218d0c500c66dda20d"
        "device_rw"
    ∷ single "slot_5fnum" "slot_num" "../structpciedev__dev.html#a80d2c64840bd16a5e3f485104f0635b2"
        "pciedev_dev"
    ∷ single "start_5ftime" "start_time"
        "../structdevice__ioctrl__time.html#a73717c26f9ec75f5b4ea114976a1ba2c" "device_ioctrl_time"
    ∷ single "startup_5fbrd" "startup_brd"
        "../structpciedev__dev.html#a7f22bd7ed61495948900ba16d18d9425" "pciedev_dev"
    ∷ single "startup_5fprj_5fnum" "startup_prj_num"
        "../structpciedev__dev.html#a9543b875aeec9066051803149cd34fc1" "pciedev_dev"
    ∷ single "stop_5ftime" "stop_time"
        "../structdevice__ioctrl__time.html#a04786d897463142079bd0cc2b041efcd" "device_ioctrl_time"
    ∷ single "subdevice_5fid" "subdevice_id"
        "../structpciedev__dev.html#a2530f2ef78bb906c92c95d48f74dbfab" "pciedev_dev"
    ∷ single "subvendor_5fid" "subvendor_id"
        "../structpciedev__dev.html#a570e1ece5d7563491b2db88cbbb9a87b" "pciedev_dev"
    ∷ []

abbrev pub variables_75 : List SearchEntry
variables_75 =
    single "upciedev_5fver_5fmaj" "UPCIEDEV_VER_MAJ"
      "../structpciedev__cdev.html#a8c7da97fa14c4332361a77f992fb0aae" "pciedev_cdev"
    ∷ single "upciedev_5fver_5fmin" "UPCIEDEV_VER_MIN"
        "../structpciedev__cdev.html#a0f6e52e10c1d498a0d500cfd096098c7" "pciedev_cdev"
    ∷ []

abbrev pub variables_76 : List SearchEntry
variables_76 =
    single "vendor_5fid" "vendor_id" "../structpciedev__dev.html#a4d30d9bd4e8486561688b472ee6451ef"
      "pciedev_dev"
    ∷ []
