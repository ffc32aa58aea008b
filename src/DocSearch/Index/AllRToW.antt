-- ===== src/DocSearch/Index/AllRToW.antt =====
-- The search data of the pages of everything from r to w (Doc/html/search/all_*.js).
use upciedev.Prelude.{List, [], ◌∷◌}
use upciedev.DocSearch.Results.{SearchEntry}
use upciedev.DocSearch.Index.{single, several, target}

abbrev pub all_72 : List SearchEntry
all_72 =
    several "register_5fupciedev_5fproc" "register_upciedev_proc" (
      target "../pciedev__ufn_8c.html#a32f12fc6b2bf9b68659745c699738fdb"
        "register_upciedev_proc(int num, char *dfn, struct pciedev_dev *p_upcie_dev, struct pciedev_cdev *p_upcie_cdev):&#160;pciedev_ufn.c"
      ∷ target "../pciedev__ufn_8h.html#a32f12fc6b2bf9b68659745c699738fdb"
          "register_upciedev_proc(int num, char *dfn, struct pciedev_dev *p_upcie_dev, struct pciedev_cdev *p_upcie_cdev):&#160;pciedev_ufn.c"
      ∷ [])
    ∷ single "reserved" "reserved"
        "../structdevice__ioctrl__data.html#ad8ffd816b771df6ef50f7c40166a37a6" "device_ioctrl_data"
    ∷ single "revision" "revision" "../structpciedev__dev.html#acee588bb923d6964d7274a976c60b81f"
        "pciedev_dev"
    ∷ single "rsrvd_5frw" "rsrvd_rw" "../structdevice__rw.html#ad00399557d63fd24a5301204a7631c52"
        "device_rw"
    ∷ single "rw_5fd16" "RW_D16" "../pciedev__io_8h.html#abc50dc315c651c129149ea8f543e23ea"
        "pciedev_io.h"
    ∷ single "rw_5fd32" "RW_D32" "../pciedev__io_8h.html#a95cac24787550ae06eb2cd33b0d92194"
        "pciedev_io.h"
    ∷ single "rw_5fd8" "RW_D8" "../pciedev__io_8h.html#a3494a27985916bbb418d9c6557985c15"
        "pciedev_io.h"
    ∷ single "rw_5fdma" "RW_DMA" "../pciedev__io_8h.html#a3afe2693cdc01fee9aa769f889e9f690"
        "pciedev_io.h"
    ∷ single "rw_5finfo" "RW_INFO" "../pciedev__io_8h.html#a8ee8c3c02591a6a47113a0e59b88936a"
        "pciedev_io.h"
    ∷ single "rw_5foff0" "rw_off0" "../structpciedev__dev.html#a591d58b973d2267fb720eb4945a580a6"
        "pciedev_dev"
    ∷ single "rw_5foff1" "rw_off1" "../structpciedev__dev.html#a528311ce7651bbb1a31f1fba2aba01e2"
        "pciedev_dev"
    ∷ single "rw_5foff2" "rw_off2" "../structpciedev__dev.html#a6c373ebf413e5fec410b1b51dacb4a65"
        "pciedev_dev"
    ∷ single "rw_5foff3" "rw_off3" "../structpciedev__dev.html#ad49f7d49274b2b921da3c21aa857cebd"
        "pciedev_dev"
    ∷ single "rw_5foff4" "rw_off4" "../structpciedev__dev.html#a0cc4eb653f653ab59363e1d9f89a7d62"
        "pciedev_dev"
    ∷ single "rw_5foff5" "rw_off5" "../structpciedev__dev.html#a95eb4e3702cf7f042d99d03746f70d69"
        "pciedev_dev"
    ∷ []

abbrev pub all_73 : List SearchEntry
all_73 =
    single "scratch_5fbar" "scratch_bar"
      "../structpciedev__dev.html#a594a5c181000d31c2ffab9a3a1f39ab7" "pciedev_dev"
    ∷ single "scratch_5foffset" "scratch_offset"
        "../structpciedev__dev.html#a3d70cef688f7bad685097a682b6818ff" "pciedev_dev"
    ∷ single "size_5frw" "size_rw" "../structdevice__rw.html#ad9348912dabb0b218d0c500c66dda20d"
        "device_rw"
    ∷ single "slot_5fnum" "slot_num" "../structpciedev__dev.html#a80d2c64840bd16a5e3f485104f0635b2"
        "pciedev_dev"
    ∷ single "start_5ftime" "start_time"
        "../structdevice__ioctrl__time.html#a73717c26f9ec75f5b4ea114976a1ba2c" "device_ioctrl_time"
    ∷ single "startup_5fbrd" "startup_brd"
        "../structpciedev__dev.html#a7f22bd7ed61495948900ba16d18d9425" "pciedev_dev"
    ∷ single "startup_5fprj_5fnum" "startup_prj_num"
        "../structpciedev__dev.html#a9543b875aeec9066051803149cd34fc1" "pciedev_dev"
    ∷ single "stop_5ftime" "stop_time"
        "../structdevice__ioctrl__time.html#a04786d897463142079bd0cc2b041efcd" "device_ioctrl_time"
    ∷ single "subdevice_5fid" "subdevice_id"
        "../structpciedev__dev.html#a2530f2ef78bb906c92c95d48f74dbfab" "pciedev_dev"
    ∷ single "subvendor_5fid" "subvendor_id"
        "../structpciedev__dev.html#a570e1ece5d7563491b2db88cbbb9a87b" "pciedev_dev"
    ∷ []

abbrev pub all_75 : List SearchEntry
all_75 =
    several "unregister_5fupciedev_5fproc" "unregister_upciedev_proc" (
      target "../pciedev__ufn_8c.html#a604e88255fa0f468cbc7c046ce560db9"
        "unregister_upciedev_proc(int num, char *dfn):&#160;pciedev_ufn.c"
      ∷ target "../pciedev__ufn_8h.html#a604e88255fa0f468cbc7c046ce560db9"
          "unregister_upciedev_proc(int num, char *dfn):&#160;pciedev_ufn.c"
      ∷ [])
    ∷ several "upciedev_5fcleanup_5fmodule_5fexp" "upciedev_cleanup_module_exp" (
        target "../pciedev__ufn_8c.html#a9210f5f3452bcfc6c7d0f982688ca833"
          "upciedev_cleanup_module_exp(pciedev_cdev **pciedev_cdev_p):&#160;pciedev_ufn.c"
        ∷ target "../pciedev__ufn_8h.html#aa7b73bf550ed4243740e152276bae7b0"
            "upciedev_cleanup_module_exp(pciedev_cdev **):&#160;pciedev_ufn.c"
        ∷ [])
    ∷ single "upciedev_5fdrv_2ec" "upciedev_drv.c" "../upciedev__drv_8c.html" ""
    ∷ several "upciedev_5ffile_5flist" "upciedev_file_list" (
        target "../structupciedev__file__list.html" "upciedev_file_list"
        ∷ target "../pciedev__ufn_8h.html#a4002e0ed7729cf485218730115e81277"
            "upciedev_file_list():&#160;pciedev_ufn.h"
        ∷ [])
    ∷ several "upciedev_5finit_5fmodule_5fexp" "upciedev_init_module_exp" (
        target "../pciedev__ufn_8c.html#ac43f73e71ebb1f2386f0a238d0be6404"
          "upciedev_init_module_exp(pciedev_cdev **pciedev_cdev_pp, struct file_operations *pciedev_fops, char *dev_name):&#160;pciedev_ufn.c"
        ∷ target "../pciedev__ufn_8h.html#a3881936381992a7936d832e84260e450"
            "upciedev_init_module_exp(pciedev_cdev **, struct file_operations *, char *):&#160;pciedev_ufn.c"
        ∷ [])
    ∷ single "upciedev_5fver_5fmaj" "UPCIEDEV_VER_MAJ"
        "../structpciedev__cdev.html#a8c7da97fa14c4332361a77f992fb0aae" "pciedev_cdev"
    ∷ single "upciedev_5fver_5fmin" "UPCIEDEV_VER_MIN"
        "../structpciedev__cdev.html#a0f6e52e10c1d498a0d500cfd096098c7" "pciedev_cdev"
    ∷ []

abbrev pub all_76 : List SearchEntry
all_76 =
    single "vendor_5fid" "vendor_id" "../structpciedev__dev.html#a4d30d9bd4e8486561688b472ee6451ef"
      "pciedev_dev"
    ∷ []

abbrev pub all_77 : List SearchEntry
all_77 =
    single "word_5fboard_5fdate" "WORD_BOARD_DATE"
      "../pciedev__ufn_8h.html#a6fc5de9f35daa6a43b6ecf40b0fbdc87" "pciedev_ufn.h"
    ∷ single "word_5fboard_5fhw_5fversion" "WORD_BOARD_HW_VERSION"
        "../pciedev__ufn_8h.html#aed280da0791db3ba65e788e162368762" "pciedev_ufn.h"
    ∷ single "word_5fboard_5fid" "WORD_BOARD_ID"
        "../pciedev__ufn_8h.html#af973f22d2c9b14bc7ecaedb722240bbc" "pciedev_ufn.h"
    ∷ single "word_5fboard_5fmagic_5fnum" "WORD_BOARD_MAGIC_NUM"
        "../pciedev__ufn_8h.html#a65dc7126a642247f408a9b05d22de86c" "pciedev_ufn.h"
    ∷ single "word_5fboard_5freset" "WORD_BOARD_RESET"
        "../pciedev__ufn_8h.html#ae7163ed970470fb18075a06a3ff145be" "pciedev_ufn.h"
    ∷ single "word_5fboard_5fto_5fproj" "WORD_BOARD_TO_PROJ"
        "../pciedev__ufn_8h.html#a26e1013d278b8bb19337073a093a013b" "pciedev_ufn.h"
    ∷ single "word_5fboard_5fversion" "WORD_BOARD_VERSION"
        "../pciedev__ufn_8h.html#ad9f4f941a44446fae6331251868a4071" "pciedev_ufn.h"
    ∷ single "word_5fproj_5fdate" "WORD_PROJ_DATE"
        "../pciedev__ufn_8h.html#a00ac381d8b99a4b466be5be5e18dcd0b" "pciedev_ufn.h"
    ∷ single "word_5fproj_5fid" "WORD_PROJ_ID"
        "../pciedev__ufn_8h.html#a85a66859ac00fbbc3d584d5f27774284" "pciedev_ufn.h"
    ∷ single "word_5fproj_5firq_5fclr_5fflagse" "WORD_PROJ_IRQ_CLR_FLAGSE"
        "../pciedev__ufn_8h.html#a7858e1aa41d7fb2b42a89b4ceb614c4f" "pciedev_ufn.h"
    ∷ single "word_5fproj_5firq_5fenable" "WORD_PROJ_IRQ_ENABLE"
        "../pciedev__ufn_8h.html#aeefda069e3e7efe0cdb8501758c2f74d" "pciedev_ufn.h"
    ∷ single "word_5fproj_5firq_5fflags" "WORD_PROJ_IRQ_FLAGS"
        "../pciedev__ufn_8h.html#af6cc20b4fa5e8ad19108d8dccb28c002" "pciedev_ufn.h"
    ∷ single "word_5fproj_5firq_5fmask" "WORD_PROJ_IRQ_MASK"
        "../pciedev__ufn_8h.html#a381bd39443d57c9e512e9a9777b47f08" "pciedev_ufn.h"
    ∷ single "word_5fproj_5fmagic_5fnum" "WORD_PROJ_MAGIC_NUM"
        "../pciedev__ufn_8h.html#a0d2e2e3847dcb8f5ec882ce96ee0b5cf" "pciedev_ufn.h"
    ∷ single "word_5fproj_5fnext" "WORD_PROJ_NEXT"
        "../pciedev__ufn_8h.html#aa1761624d108ae662fe032ad67a1d45e" "pciedev_ufn.h"
    ∷ single "word_5fproj_5freserved" "WORD_PROJ_RESERVED"
        "../pciedev__ufn_8h.html#a78ffd9d43448bd1c27cc9fe25dd888cc" "pciedev_ufn.h"
    ∷ single "word_5fproj_5freset" "WORD_PROJ_RESET"
        "../pciedev__ufn_8h.html#a3755c7798e6a6212f86e2c411ee08980" "pciedev_ufn.h"
    ∷ single "word_5fproj_5fversion" "WORD_PROJ_VERSION"
        "../pciedev__ufn_8h.html#aa99330b8108c91906503ed83bf7f5362" "pciedev_ufn.h"
    ∷ []
