-- ===== src/DocSearch/Index/AllP.antt =====
-- The search data of the pages of everything with p (Doc/html/search/all_*.js).
use upciedev.Prelude.{List, [], ◌∷◌}
use upciedev.DocSearch.Results.{SearchEntry}
use upciedev.DocSearch.Index.{single, several, target}

abbrev pub all_70 : List SearchEntry
all_70 =
    single "parent_5fdev" "parent_dev"
      "../structpciedev__dev.html#a3ccd02ec03020de42cdf8f1d748493d6" "pciedev_dev"
    ∷ single "pci_5fdev_5firq" "pci_dev_irq"
        "../structpciedev__dev.html#a858a6584f47bbe70e34e54cd8a008324" "pciedev_dev"
    ∷ single "pcied_5ffpos" "PCIED_FPOS" "../pciedev__ufn_8h.html#af5bd2d5b0d466fc7c6b89e85054df1f9"
        "pciedev_ufn.h"
    ∷ single "pciedev_5fall_5fmems" "pciedev_all_mems"
        "../structpciedev__dev.html#a9439b81f518ed4bc0055f53101cd900c" "pciedev_dev"
    ∷ single "pciedev_5fboard_5fdate" "PCIEDEV_BOARD_DATE"
        "../structpciedev__brd__info.html#a1a6c23dd0317d5f343bd95bd75079a63" "pciedev_brd_info"
    ∷ single "pciedev_5fboard_5fid" "PCIEDEV_BOARD_ID"
        "../structpciedev__brd__info.html#ae94f88f988d0db5a887ffcf42b4ab235" "pciedev_brd_info"
    ∷ single "pciedev_5fboard_5freserved" "PCIEDEV_BOARD_RESERVED"
        "../structpciedev__brd__info.html#aba02a309752715d4081bf30465c0948c" "pciedev_brd_info"
    ∷ single "pciedev_5fboard_5fversion" "PCIEDEV_BOARD_VERSION"
        "../structpciedev__brd__info.html#a09721e4f18f2b6d882db29497e31fa3a" "pciedev_brd_info"
    ∷ several "pciedev_5fbrd_5finfo" "pciedev_brd_info" (
        target "../structpciedev__brd__info.html" "pciedev_brd_info"
        ∷ target "../pciedev__ufn_8h.html#a4342eaea5cad7821f56bc3ba64f8104a"
            "pciedev_brd_info():&#160;pciedev_ufn.h"
        ∷ [])
    ∷ several "pciedev_5fcdev" "pciedev_cdev" (
        target "../structpciedev__cdev.html" "pciedev_cdev"
        ∷ target "../pciedev__ufn_8h.html#a4ae814911b067afa89f58fcaf1241a82"
            "pciedev_cdev():&#160;pciedev_ufn.h"
        ∷ [])
    ∷ several "pciedev_5fcheck_5fscratch" "pciedev_check_scratch" (
        target "../pciedev__rw__exp_8c.html#a172e512fecea4c8923a8b2bd11cd9f30"
          "pciedev_check_scratch(struct pciedev_dev *dev, int rmode):&#160;pciedev_rw_exp.c"
        ∷ target "../pciedev__ufn_8h.html#a3a50a2c317ac8543481467429e02b216"
            "pciedev_check_scratch(struct pciedev_dev *, int):&#160;pciedev_rw_exp.c"
        ∷ [])
    ∷ single "pciedev_5fclass" "pciedev_class"
        "../structpciedev__cdev.html#aaa98d4915cbbed6c866ffaf7483108bc" "pciedev_cdev"
    ∷ several "pciedev_5fdev" "pciedev_dev" (
        target "../structpciedev__dev.html" "pciedev_dev"
        ∷ target "../pciedev__ufn_8h.html#a8b346c63af6e09c3191f8b83f53cf971"
            "pciedev_dev():&#160;pciedev_ufn.h"
        ∷ [])
    ∷ single "pciedev_5fdev_5fm" "pciedev_dev_m"
        "../structpciedev__cdev.html#a8c11bf5f89111dabe132a47e1f4c76a7" "pciedev_cdev"
    ∷ single "pciedev_5fdma_5fmin_5fsyze" "PCIEDEV_DMA_MIN_SYZE"
        "../pciedev__io_8h.html#a6df179f336e65ab5b64801ca0f9818d2" "pciedev_io.h"
    ∷ single "pciedev_5fdma_5fsyze" "PCIEDEV_DMA_SYZE"
        "../pciedev__io_8h.html#acf195079e65702428087887dd5649ffc" "pciedev_io.h"
    ∷ single "pciedev_5fdriver_5fversion" "PCIEDEV_DRIVER_VERSION"
        "../pciedev__io_8h.html#a2140cdb4612e1aeb483572affbeb9f20" "pciedev_io.h"
    ∷ single "pciedev_5fdrv_5fver_5fmaj" "PCIEDEV_DRV_VER_MAJ"
        "../structpciedev__cdev.html#ad61b849b4d938a1750e68585791eeebd" "pciedev_cdev"
    ∷ single "pciedev_5fdrv_5fver_5fmin" "PCIEDEV_DRV_VER_MIN"
        "../structpciedev__cdev.html#af290aa167eae6b6ec1eb1e82eccf9f9b" "pciedev_cdev"
    ∷ several "pciedev_5ffill_5fprj_5finfo" "pciedev_fill_prj_info" (
        target "../pciedev__ufn_8c.html#afdfa8ea4102cd3b704d207dfbf2f8045"
          "pciedev_fill_prj_info(struct pciedev_dev *bdev, void *baddress):&#160;pciedev_ufn.c"
        ∷ target "../pciedev__ufn_8h.html#a04704b7f8858ac0ba0e15eeafd3ae855"
            "pciedev_fill_prj_info(struct pciedev_dev *, void *):&#160;pciedev_ufn.c"
        ∷ [])
    ∷ single "pciedev_5ffirmware_5fversion" "PCIEDEV_FIRMWARE_VERSION"
        "../pciedev__io_8h.html#a4209c10c61a2ea367ce7ae1ebaf03ed0" "pciedev_io.h"
    ∷ several "pciedev_5fget_5fbaddress" "pciedev_get_baddress" (
        target "../pciedev__ufn_8c.html#a8249f6edd275b94c53e9e783a2538dae"
          "pciedev_get_baddress(int br_num, struct pciedev_dev *dev):&#160;pciedev_ufn.c"
        ∷ target "../pciedev__ufn_8h.html#a11ca837547544e14dea204bd54a29bae"
            "pciedev_get_baddress(int, struct pciedev_dev *):&#160;pciedev_ufn.c"
        ∷ [])
    ∷ several "pciedev_5fget_5fbrdinfo" "pciedev_get_brdinfo" (
        target "../pciedev__ufn_8c.html#a0e9c0296a49472322ef2c3179fce5a37"
          "pciedev_get_brdinfo(struct pciedev_dev *bdev):&#160;pciedev_ufn.c"
        ∷ target "../pciedev__ufn_8h.html#aad9373dffa0623f69740cd579caeceb0"
            "pciedev_get_brdinfo(struct pciedev_dev *):&#160;pciedev_ufn.c"
        ∷ [])
    ∷ several "pciedev_5fget_5fbrdnum" "pciedev_get_brdnum" (
        target "../pciedev__ufn_8c.html#af78683c2315d019d4552c0bc6e6fc7fc"
          "pciedev_get_brdnum(struct pci_dev *dev):&#160;pciedev_ufn.c"
        ∷ target "../pciedev__ufn_8h.html#a5892091221ae99bab874c14d9f1dd817"
            "pciedev_get_brdnum(struct pci_dev *):&#160;pciedev_ufn.c"
        ∷ [])
    ∷ single "pciedev_5fget_5fdma_5ftime" "PCIEDEV_GET_DMA_TIME"
        "../pciedev__io_8h.html#a2aa7940c0614fa9c0c1031e028db6fc0" "pciedev_io.h"
    ∷ several "pciedev_5fget_5fdrvdata" "pciedev_get_drvdata" (
        target "../pciedev__ufn_8c.html#aa4c092a53544e5791a7544cb68d60f61"
          "pciedev_get_drvdata(struct pciedev_dev *dev):&#160;pciedev_ufn.c"
        ∷ target "../pciedev__ufn_8h.html#a248ae92b918dddf4f310a2c0bdf12e26"
            "pciedev_get_drvdata(struct pciedev_dev *):&#160;pciedev_ufn.c"
        ∷ [])
    ∷ several "pciedev_5fget_5fpciedata" "pciedev_get_pciedata" (
        target "../pciedev__ufn_8c.html#a227a41c8651d334fcacecc6161ddc9b9"
          "pciedev_get_pciedata(struct pci_dev *dev):&#160;pciedev_ufn.c"
        ∷ target "../pciedev__ufn_8h.html#acc306e1d829c5958649ced047a9f0b47"
            "pciedev_get_pciedata(struct pci_dev *):&#160;pciedev_ufn.c"
        ∷ [])
    ∷ several "pciedev_5fget_5fprjinfo" "pciedev_get_prjinfo" (
        target "../pciedev__ufn_8c.html#a505869656038dbb8c3d014de193c69c6"
          "pciedev_get_prjinfo(struct pciedev_dev *bdev):&#160;pciedev_ufn.c"
        ∷ target "../pciedev__ufn_8h.html#a7b2e7230722a388f1738872a12e16fab"
            "pciedev_get_prjinfo(struct pciedev_dev *):&#160;pciedev_ufn.c"
        ∷ [])
    ∷ single "pciedev_5fget_5fstatus" "PCIEDEV_GET_STATUS"
        "../pciedev__io_8h.html#a1192aa141968a35a6df1c3fed3646f14" "pciedev_io.h"
    ∷ single "pciedev_5fhw_5fversion" "PCIEDEV_HW_VERSION"
        "../structpciedev__brd__info.html#a3579f9986da5358c11e47d3e2ecd74b3" "pciedev_brd_info"
    ∷ single "pciedev_5fio_2eh" "pciedev_io.h" "../pciedev__io_8h.html" ""
    ∷ several "pciedev_5fioctl_5fexp" "pciedev_ioctl_exp" (
        target "../pciedev__ioctl__exp_8c.html#ac5a7d2102e3cbf8119042c6267f7b8b1"
          "pciedev_ioctl_exp(struct file *filp, unsigned int *cmd_p, unsigned long *arg_p, pciedev_cdev *pciedev_cdev_m):&#160;pciedev_ioctl_exp.c"
        ∷ target "../pciedev__ufn_8h.html#aa7f3b36a7cc679675ed48898e06b7f63"
            "pciedev_ioctl_exp(struct file *, unsigned int *, unsigned long *, pciedev_cdev *):&#160;pciedev_ioctl_exp.c"
        ∷ [])
    ∷ single "pciedev_5fioctl_5fexp_2ec" "pciedev_ioctl_exp.c" "../pciedev__ioctl__exp_8c.html" ""
    ∷ several "pciedev_5fllseek" "pciedev_llseek" (
        target "../pciedev__rw__exp_8c.html#a5533905d3d36265c8988a01f23248e33"
          "pciedev_llseek(struct file *filp, loff_t off, int frm):&#160;pciedev_rw_exp.c"
        ∷ target "../pciedev__ufn_8h.html#a9e757259c2d591ca648fe06068cdcf84"
            "pciedev_llseek(struct file *, loff_t, int):&#160;pciedev_rw_exp.c"
        ∷ [])
    ∷ single "pciedev_5fmajor" "PCIEDEV_MAJOR"
        "../structpciedev__cdev.html#a1b39e1fbdc16a04ddbaa97bdf8a25bd2" "pciedev_cdev"
    ∷ single "pciedev_5fminor" "PCIEDEV_MINOR"
        "../structpciedev__cdev.html#ac992db6cc3d06151e8602f83d2a62a64" "pciedev_cdev"
    ∷ several "pciedev_5fopen_5fexp" "pciedev_open_exp" (
        target "../pciedev__ufn_8c.html#a69825f42f3dedf9d9b384bf8ab649799"
          "pciedev_open_exp(struct inode *inode, struct file *filp):&#160;pciedev_ufn.c"
        ∷ target "../pciedev__ufn_8h.html#a018ec19a761491b35bcc290a7c580d70"
            "pciedev_open_exp(struct inode *, struct file *):&#160;pciedev_ufn.c"
        ∷ [])
    ∷ single "pciedev_5fpci_5fdev" "pciedev_pci_dev"
        "../structpciedev__dev.html#a2752cedd8537dd552c53eb3cfe5289e3" "pciedev_dev"
    ∷ single "pciedev_5fphysical_5fslot" "PCIEDEV_PHYSICAL_SLOT"
        "../pciedev__io_8h.html#a07aad6c0ab1a1d0386c51904d1d4e481" "pciedev_io.h"
    ∷ several "pciedev_5fprj_5finfo" "pciedev_prj_info" (
        target "../structpciedev__prj__info.html" "pciedev_prj_info"
        ∷ target "../pciedev__ufn_8h.html#a247bf67f29f8c8442f2c1d8d4e6ed4f6"
            "pciedev_prj_info():&#160;pciedev_ufn.h"
        ∷ [])
    ∷ several "pciedev_5fprobe_5fexp" "pciedev_probe_exp" (
        target "../pciedev__probe__exp_8c.html#a0a4ad98251744b7f355f14f7a0b499e0"
          "pciedev_probe_exp(struct pci_dev *dev, const struct pci_device_id *id, struct file_operations *pciedev_fops, pciedev_cdev *pciedev_cdev_p, char *dev_name, int *brd_num):&#160;pciedev_probe_exp.c"
        ∷ target "../pciedev__ufn_8h.html#a056c9a66d474f26e759a4191825eeea1"
            "pciedev_probe_exp(struct pci_dev *, const struct pci_device_id *, struct file_operations *, pciedev_cdev *, char *, int *):&#160;pciedev_probe_exp.c"
        ∷ [])
    ∷ single "pciedev_5fprobe_5fexp_2ec" "pciedev_probe_exp.c" "../pciedev__probe__exp_8c.html" ""
    ∷ single "pciedev_5fprocdir" "pciedev_procdir"
        "../structpciedev__cdev.html#a58b53d27105e413037a0e9b84c1c9e12" "pciedev_cdev"
    ∷ several "pciedev_5fprocinfo" "pciedev_procinfo" (
        target "../pciedev__ufn_8c.html#a72ca703e4a2497c3c844f5334f41db11"
          "pciedev_procinfo(struct file *filp, char *buf, size_t count, loff_t *offp):&#160;pciedev_ufn.c"
        ∷ target "../pciedev__ufn_8h.html#a72ca703e4a2497c3c844f5334f41db11"
            "pciedev_procinfo(struct file *filp, char *buf, size_t count, loff_t *offp):&#160;pciedev_ufn.c"
        ∷ [])
    ∷ single "pciedev_5fproj_5fdate" "PCIEDEV_PROJ_DATE"
        "../structpciedev__prj__info.html#a168802287bd865a38046ed7ce1c8ddf5" "pciedev_prj_info"
    ∷ single "pciedev_5fproj_5fid" "PCIEDEV_PROJ_ID"
        "../structpciedev__prj__info.html#a64d2c70194b0134722e18d0042b97dd1" "pciedev_prj_info"
    ∷ several "pciedev_5fproj_5fnext" "PCIEDEV_PROJ_NEXT" (
        target "../structpciedev__brd__info.html#a9728484f826aafb16433484fa237490f"
          "pciedev_brd_info::PCIEDEV_PROJ_NEXT()"
        ∷ target "../structpciedev__prj__info.html#aa08856292f6a8c4e22e8ee9d2c62a62d"
            "pciedev_prj_info::PCIEDEV_PROJ_NEXT()"
        ∷ [])
    ∷ single "pciedev_5fproj_5freserved" "PCIEDEV_PROJ_RESERVED"
        "../structpciedev__prj__info.html#a6bd9422a240447891b3f7320890d4088" "pciedev_prj_info"
    ∷ single "pciedev_5fproj_5fversion" "PCIEDEV_PROJ_VERSION"
        "../structpciedev__prj__info.html#a9906330775b1a10fe77374728f2c248b" "pciedev_prj_info"
    ∷ single "pciedev_5fread_5fdma" "PCIEDEV_READ_DMA"
        "../pciedev__io_8h.html#a0ce58a436c9a78d135964a5b62c0dfd5" "pciedev_io.h"
    ∷ several "pciedev_5fread_5fexp" "pciedev_read_exp" (
        target "../pciedev__rw__exp_8c.html#adffa9c9f1526e76ddb2c9f13b23abefb"
          "pciedev_read_exp(struct file *filp, char __user *buf, size_t count, loff_t *f_pos):&#160;pciedev_rw_exp.c"
        ∷ target "../pciedev__ufn_8h.html#acdc8222997f63d934b2c33980ccf622b"
            "pciedev_read_exp(struct file *, char __user *, size_t, loff_t *):&#160;pciedev_rw_exp.c"
        ∷ [])
    ∷ several "pciedev_5frelease_5fexp" "pciedev_release_exp" (
        target "../pciedev__ufn_8c.html#ab17fa9853c5b5fc62e50f61069ff8a8d"
          "pciedev_release_exp(struct inode *inode, struct file *filp):&#160;pciedev_ufn.c"
        ∷ target "../pciedev__ufn_8h.html#a81a53a912c64095350b48158afc566ac"
            "pciedev_release_exp(struct inode *, struct file *):&#160;pciedev_ufn.c"
        ∷ [])
    ∷ several "pciedev_5fremove_5fexp" "pciedev_remove_exp" (
        target "../pciedev__remove__exp_8c.html#a3dea48122c045d73e487b9cccc610561"
          "pciedev_remove_exp(struct pci_dev *dev, pciedev_cdev *pciedev_cdev_m, char *dev_name, int *brd_num):&#160;pciedev_remove_exp.c"
        ∷ target "../pciedev__ufn_8h.html#a8e8bd2dc388062f755d6e768f3e606e5"
            "pciedev_remove_exp(struct pci_dev *dev, pciedev_cdev *, char *, int *):&#160;pciedev_remove_exp.c"
        ∷ [])
    ∷ single "pciedev_5fremove_5fexp_2ec" "pciedev_remove_exp.c" "../pciedev__remove__exp_8c.html"
        ""
    ∷ single "pciedev_5frw_5fexp_2ec" "pciedev_rw_exp.c" "../pciedev__rw__exp_8c.html" ""
    ∷ single "pciedev_5fscratch_5freg" "PCIEDEV_SCRATCH_REG"
        "../pciedev__io_8h.html#aee76447bc6c66911e0012e7cb33b34ac" "pciedev_io.h"
    ∷ several "pciedev_5fset_5fdrvdata" "pciedev_set_drvdata" (
        target "../pciedev__ufn_8c.html#a2ba88ce564225bbd3b049039527515b5"
          "pciedev_set_drvdata(struct pciedev_dev *dev, void *data):&#160;pciedev_ufn.c"
        ∷ target "../pciedev__ufn_8h.html#ab120c58326f82de487f963fa675b93ae"
            "pciedev_set_drvdata(struct pciedev_dev *, void *):&#160;pciedev_ufn.c"
        ∷ [])
    ∷ single "pciedev_5fset_5firq" "PCIEDEV_SET_IRQ"
        "../pciedev__io_8h.html#affbc21ad44dcfae23526e8fb7b77b16c" "pciedev_io.h"
    ∷ several "pciedev_5fsetup_5finterrupt" "pciedev_setup_interrupt" (
        target "../pciedev__ufn_8c.html#af9ec8fdb0f4113c211110358b8b847f3"
          "pciedev_setup_interrupt(irqreturn_t(*pciedev_interrupt)(int, void *, struct pt_regs *), struct pciedev_dev *pdev, char *dev_name):&#160;pciedev_ufn.c"
        ∷ target "../pciedev__ufn_8h.html#ae8f130b4ff23110a501ab00b5928ee94"
            "pciedev_setup_interrupt(irqreturn_t(*pciedev_interrupt)(int, void *, struct pt_regs *), struct pciedev_dev *, char *):&#160;pciedev_ufn.c"
        ∷ [])
    ∷ single "pciedev_5fufn_2ec" "pciedev_ufn.c" "../pciedev__ufn_8c.html" ""
    ∷ single "pciedev_5fufn_2eh" "pciedev_ufn.h" "../pciedev__ufn_8h.html" ""
    ∷ single "pciedev_5fwrite_5fdma" "PCIEDEV_WRITE_DMA"
        "../pciedev__io_8h.html#a6892d9a42c85abdf25bf5998359ba61b" "pciedev_io.h"
    ∷ several "pciedev_5fwrite_5fexp" "pciedev_write_exp" (
        target "../pciedev__rw__exp_8c.html#ab9c8b3bd33ef7a2861205b46e495d8d6"
          "pciedev_write_exp(struct file *filp, const char __user *buf, size_t count, loff_t *f_pos):&#160;pciedev_rw_exp.c"
        ∷ target "../pciedev__ufn_8h.html#aeb1b14d3cfd3cc60cc552f4c16c6493b"
            "pciedev_write_exp(struct file *, const char __user *, size_t, loff_t *):&#160;pciedev_rw_exp.c"
        ∷ [])
    ∷ single "pciedevmodulenum" "pciedevModuleNum"
        "../structpciedev__cdev.html#a15edea422f4d38368426aebf1a6728e2" "pciedev_cdev"
    ∷ single "pciedoocs_5fioc" "PCIEDOOCS_IOC"
        "../pciedev__io_8h.html#ae4a61739d33de556c654b0b2d3458549" "pciedev_io.h"
    ∷ single "pciedoocs_5fioc_5fdma_5fmaxnr" "PCIEDOOCS_IOC_DMA_MAXNR"
        "../pciedev__io_8h.html#a80b72af01345fd80ba7df7085fe5271b" "pciedev_io.h"
    ∷ single "pciedoocs_5fioc_5fdma_5fminnr" "PCIEDOOCS_IOC_DMA_MINNR"
        "../pciedev__io_8h.html#a3550d7327b976a7882121d4fb3e9e518" "pciedev_io.h"
    ∷ single "pciedoocs_5fioc_5fmaxnr" "PCIEDOOCS_IOC_MAXNR"
        "../pciedev__io_8h.html#a2adc22a34dd80aeb9090741dad0bf049" "pciedev_io.h"
    ∷ single "pciedoocs_5fioc_5fminnr" "PCIEDOOCS_IOC_MINNR"
        "../pciedev__io_8h.html#aeda3a2a8e04dea1db5bcf4d4cec12688" "pciedev_io.h"
    ∷ single "prj_5finfo_5flist" "prj_info_list"
        "../structpciedev__dev.html#abbeab4eb9fde1991bddb7d550cea0073" "pciedev_dev"
    ∷ single "prj_5flist" "prj_list"
        "../structpciedev__prj__info.html#acd9c7558368cd3f73ef5e917791660ba" "pciedev_prj_info"
    ∷ []
